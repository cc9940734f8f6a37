-- ===== src/Network/Tests.antt =====
-- Runs of the network policies.
use uds_core.Prelude.{none, some, [], All, arith}
use uds_core.Crd.Package.{Mode}
use uds_core.Crd.Migrate.{migrate}
use uds_core.Packages.Store.{init}
use uds_core.Validator.Tests.{plain, any_path, config, shop, shop_approved}
use uds_core.Network.{KnownPeers, generate}
use uds_core.Network.Laws.{HasPeers, IsGuarded, approved-IsGuarded}

-- Before the first watch events.
abbrev nothing_known : KnownPeers
nothing_known = record { api_server = none; nodes = [] }

nothing_known-HasPeers : HasPeers nothing_known
nothing_known-HasPeers = λ ps e. absurd (ground arith)

approved-IsGuarded_example :
    All
      (λ a. IsGuarded a (generate nothing_known "shop-ns" a (some Mode.ambient)))
      (migrate shop).allow
approved-IsGuarded_example =
    approved-IsGuarded plain any_path config init shop nothing_known "shop-ns" (some Mode.ambient)
      nothing_known-HasPeers shop_approved
