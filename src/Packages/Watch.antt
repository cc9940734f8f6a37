-- ===== src/Packages/Watch.antt =====
-- pepr/operator/controllers/packages/packages.ts: what the watch does with a package.
use uds_core.Prelude.{Result}
use uds_core.Crd.Package.{Package}
use uds_core.Packages.Store.{Store, Invalid, add, remove}

pub data WatchPhase : Type 0 where
  added modified deleted : WatchPhase

-- processPackages
abbrev pub process_packages : Package → WatchPhase → Store → Result Store Invalid
process_packages pkg WatchPhase.added s = add pkg s
process_packages pkg WatchPhase.modified s = add pkg s
process_packages pkg WatchPhase.deleted s = remove pkg s
