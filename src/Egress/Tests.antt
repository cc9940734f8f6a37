-- ===== src/Egress/Tests.antt =====
-- Runs of the protocol checks and of the updates of the maps in memory.
use uds_core.Prelude.{
  ◌<◌, String, Bool, true, false, Option, none, some, List, [], ◌∷◌, ok, ◌≡◌, ◌↔◌, inl, inr, refl,
  All, insert, lookup, arith, ◌∙◌, sym, Any, some_injective, ok_injective,
}
use uds_core.Crd.Package.{Allow, Direction, RemoteProtocol, Mode, Package, bare_allow, bare_package}
use uds_core.Egress.Types.{HostResourceMap, AmbientPackageEntry, host_rule, add_or_update, remove}
use uds_core.Egress.Resources.{
  create_host_resource_map, create_ambient_package_entry, add_allows, get_host_ports_protocol,
  push_ports,
}
use uds_core.Egress.Conflicts.{
  Claim, passed, resource_claims, validate, check_claims, record_others,
  validate_ambient_protocol_conflicts,
}
use uds_core.Egress.Conflicts.Laws.{Agree, Agreed}
use uds_core.Egress.Conflicts.Laws.Decision.{validate_iff}
use uds_core.Egress.Maps.{
  State, init, reconcile_maps, update_in_memory_package_map, update_in_memory_ambient_package_map,
}
use uds_core.Egress.Maps.Laws.{
  IsUniform, IsAgreed, reconcile_pkg, reconcile_all, reconcile_all-IsAgreed,
}
use uds_core.Egress.Maps.Modes.{StandsIn, reconcile_pkg-StandsIn}
use uds_core.Egress.Mutex.{
  Mutex, free, running, left, request, pass_ended, Run, start, requested, ended, Run-served,
  late_request-unserved, clearing, pass_end, go_on,
}
use uds_core.Egress.Maps.SharedIds.{shared_id-lost}

abbrev to_host : String → Allow
to_host host = record (bare_allow Direction.egress) {
  remote_host = some host;
  remote_protocol = some RemoteProtocol.tls;
  port = some 8443;
}

abbrev asking : String → String → Package
asking name ns = record (bare_package (some name) (some ns)) { allow = to_host "example.com" ∷ [] }

-- One host with one port.
abbrev resources : HostResourceMap
resources =
    (
      "example.com",
      record { port_protocol = record { port = 8443; protocol = RemoteProtocol.tls } ∷ [] },
    )
    ∷ []

abbrev shop_entry : AmbientPackageEntry
shop_entry = record {
  name = "shop";
  namespace = "shop-ns";
  rules = host_rule "example.com" (8443 ∷ []) RemoteProtocol.tls none ∷ [];
}

-- A list of one claim agrees with itself.
one_claim : (c : Claim) → Agree (c ∷ []) (c ∷ [])
one_claim c k p q (inl (_, e)) (inl (_, f)) = sym e ∙ f
one_claim c k p q (inl x) (inr h) = elim h [ ]
one_claim c k p q (inr h) d = elim h [ ]

empty-Agreed : Agreed resource_claims []
empty-Agreed = record { distinct = tt; agree = λ i j a b ea eb. absurd (ground arith) }

validate_iff_example :
    (validate resource_claims [] resources "shop-ns" ≡ ok passed)
    ↔ Agreed resource_claims (insert "shop-ns" resources [])
validate_iff_example =
    validate_iff resource_claims [] resources "shop-ns" empty-Agreed (one_claim _)

shop-IsUniform : IsUniform (asking "shop" "shop-ns")
unfolding create_host_resource_map create_ambient_package_entry add_allows get_host_ports_protocol
    push_ports uds_core.Prelude.show
shop-IsUniform = record {
  resources = λ new e.
      let same : resources ≡ new = some_injective e in
      rw⁻¹ same (one_claim (record { key = "example.com:8443"; protocol = RemoteProtocol.tls }));
  rules = λ entry e.
      let same : shop_entry ≡ entry = ok_injective e in
      rw⁻¹ same (one_claim (record { key = "example.com:8443"; protocol = RemoteProtocol.tls }));
}

-- The package is added, moves to the sidecar mode and goes.
reconcile_all-IsAgreed_example : IsAgreed (
    reconcile_all
      ((asking "shop" "shop-ns", add_or_update, Mode.ambient)
        ∷ (asking "shop" "shop-ns", add_or_update, Mode.sidecar)
        ∷ (asking "shop" "shop-ns", remove, Mode.sidecar)
        ∷ [])
      init)
reconcile_all-IsAgreed_example =
    reconcile_all-IsAgreed
      ((asking "shop" "shop-ns", add_or_update, Mode.ambient)
        ∷ (asking "shop" "shop-ns", add_or_update, Mode.sidecar)
        ∷ (asking "shop" "shop-ns", remove, Mode.sidecar)
        ∷ [])
      (shop-IsUniform, (shop-IsUniform, (shop-IsUniform, tt)))

abbrev with_shop : State
with_shop = record { sidecar = ("shop-shop-ns", resources) ∷ []; ambient = [] }

abbrev moved : State
moved = record { sidecar = []; ambient = ("shop-shop-ns", shop_entry) ∷ [] }

shop_moves :
    reconcile_pkg (asking "shop" "shop-ns") add_or_update Mode.ambient with_shop ≡ (moved, none)
unfolding reconcile_maps update_in_memory_package_map update_in_memory_ambient_package_map
    create_ambient_package_entry validate_ambient_protocol_conflicts validate check_claims
    record_others
shop_moves = refl

reconcile_pkg-StandsIn_example : StandsIn Mode.ambient moved (asking "shop" "shop-ns")
reconcile_pkg-StandsIn_example =
    reconcile_pkg-StandsIn Mode.ambient (asking "shop" "shop-ns") with_shop moved shop_moves

-- The package `shop` of `ns-a` goes, and takes what `shop-ns` of `a` asks for along.
shared_id-lost_example :
    (lookup "shop-ns-a"
        (reconcile_pkg
          (asking "shop" "ns-a")
          remove
          Mode.sidecar
          (record { sidecar = ("shop-ns-a", resources) ∷ []; ambient = [] })).0.sidecar
      ≡ none)
    × (lookup "shop-ns-a"
          (reconcile_pkg
            (asking "shop" "ns-a")
            remove
            Mode.sidecar
            (record { sidecar = ("shop-ns-a", resources) ∷ []; ambient = [] })).0.ambient
        ≡ none)
shared_id-lost_example =
    shared_id-lost (asking "shop-ns" "a") (asking "shop" "ns-a") "shop" "ns" "a" Mode.sidecar
      (record { sidecar = ("shop-ns-a", resources) ∷ []; ambient = [] }) refl refl refl refl refl

-- Three requests, two of them while the first pass runs, and the two passes that serve them.
abbrev settled : Mutex
settled = pass_ended true (pass_ended true (request (request (request free))))

settled-Run : Run settled
settled-Run = ended (ended (requested (requested (requested start))) true) true

Run-served_example :
    (settled.flight ≡ left true → All (λ t. t < settled.passes) settled.joined)
    × (settled.flight ≡ running → (pass_ended true (pass_ended true settled)).flight ≡ left true)
Run-served_example = Run-served settled-Run

settled-left : settled.flight ≡ left true
unfolding request pass_ended
settled-left = refl

late_request-unserved_example :
    All
      (λ t. t ≡ (go_on (clearing ∷ pass_end true ∷ []) (request settled)).passes)
      (settled.passes ∷ settled.late)
late_request-unserved_example =
    late_request-unserved settled-Run settled-left (clearing ∷ pass_end true ∷ [])
