-- ===== src/Network/Laws.antt =====
-- What the network policies of admitted rules allow.
use uds_core.Prelude.{
  ℕ, String, true, Option, none, some, List, [], ◌∷◌, map, get_or, ◌≡◌, ◌≢◌, ◌⊎◌, inl, inr, refl,
  arith, ok, All, All-append, All-map_iff, Option-cases, Bool-cases,
}
use uds_core.Crd.Package.{Allow, Direction, Mode, RemoteGenerated, RemoteProtocol}
use uds_core.Network.{
  Peer, Port, Rule, NetworkPolicy, KnownPeers, get_peers, ports_of, generate, generated_peers,
  custom_peers, host_peers, l4_protocol, to_port, single_port, in_direction,
}
use uds_core.Validator.Allows.{by_pods, by_host}
use uds_core.Crd.Package.{Package}
use uds_core.Crd.Migrate.{migrate}
use uds_core.Names.{Text}
use uds_core.Names.Generated.{Config}
use uds_core.Packages.Store.{Store}
use uds_core.Validator.Allows.Laws.{IsRemote, check_allows_iff}
use uds_core.Validator.Handler.{validator, mode_of}
use uds_core.Validator.Handler.Laws.{validator_iff}

abbrev IsNonempty : List Peer → Type 0
IsNonempty ps = (p : Peer) × (rest : List Peer) × (ps ≡ p ∷ rest)

-- The peers of the API server, once known, are some.
abbrev pub HasPeers : KnownPeers → Type 0
HasPeers known = (ps : List Peer) → known.api_server ≡ some ps → ps ≢ []

list_cases : (ps : List Peer) → (ps ≡ []) ⊎ IsNonempty ps
list_cases [] = inl refl
list_cases (p ∷ ps) = inr (p, ps, refl)

generated_peers-IsNonempty :
    (known : KnownPeers)
    → HasPeers known
    → (g : RemoteGenerated) → IsNonempty (generated_peers known g)
generated_peers-IsNonempty known has RemoteGenerated.kube_api =
    elim (Option-cases known.api_server) [
      | inl unknown ↦ rw unknown (_, _, refl)
      | inr (ps, here) ↦ elim (list_cases ps) [
        | inl empty ↦ absurd (has ps here empty)
        | inr some_peer ↦ rw here some_peer
      ]
    ]
generated_peers-IsNonempty known has RemoteGenerated.kube_nodes = elim (list_cases known.nodes) [
  | inl empty ↦ rw empty (_, _, refl)
  | inr (p, ps, here) ↦ rw here (_, _, refl)
]
generated_peers-IsNonempty known has RemoteGenerated.cloud_metadata = (_, _, refl)
generated_peers-IsNonempty known has RemoteGenerated.intra_namespace = (_, _, refl)
generated_peers-IsNonempty known has RemoteGenerated.anywhere = (_, _, refl)

host_peers-IsNonempty : (mode : Option Mode) → IsNonempty (host_peers mode)
host_peers-IsNonempty none = (_, _, refl)
host_peers-IsNonempty (some Mode.ambient) = (_, _, refl)
host_peers-IsNonempty (some Mode.sidecar) = (_, _, refl)

custom_peers-IsNonempty :
    (a : Allow) (mode : Option Mode)
    → IsRemote a
    → a.remote_generated ≡ none
    → IsNonempty (custom_peers a mode)
custom_peers-IsNonempty a mode r e = elim (Bool-cases (by_pods a)) [
  | inl pods ↦ rw pods (_, _, refl)
  | inr no_pods ↦ elim (Option-cases a.remote_cidr) [
    | inr (cidr, c) ↦ rw no_pods (rw c (_, _, refl))
    | inl no_cidr ↦
        let n = r.one_kind in
        let host : by_host a ≡ true = ground (arith, e, no_cidr, no_pods, n) in
        rw no_pods (rw no_cidr (rw host (host_peers-IsNonempty mode)))
  ]
]

get_peers-IsNonempty :
    (known : KnownPeers) (a : Allow) (mode : Option Mode)
    → HasPeers known
    → IsRemote a
    → IsNonempty (get_peers known a mode)
unfolding get_peers
get_peers-IsNonempty known a mode has r = elim (Option-cases a.remote_generated) [
  | inl e ↦ rw e (custom_peers-IsNonempty a mode r e)
  | inr (g, e) ↦ rw e (generated_peers-IsNonempty known has g)
]

abbrev IsL4 : Port → Type 0
IsL4 q = (q.protocol ≡ RemoteProtocol.tcp) ⊎ (q.protocol ≡ RemoteProtocol.udp)

l4_cases :
    (p : Option RemoteProtocol)
    → (l4_protocol p ≡ RemoteProtocol.tcp) ⊎ (l4_protocol p ≡ RemoteProtocol.udp)
l4_cases none = inl refl
l4_cases (some RemoteProtocol.udp) = inr refl
l4_cases (some RemoteProtocol.tcp) = inl refl
l4_cases (some RemoteProtocol.tls) = inl refl
l4_cases (some RemoteProtocol.http) = inl refl

All-every {ℓ} : {A : Type ℓ} {P : A → Type 0} (h : (x : A) → P x) (xs : List A) → All P xs
All-every h [] = tt
All-every h (x ∷ xs) = (h x, All-every h xs)

ports-IsL4 : (a : Allow) → All IsL4 (ports_of a)
unfolding ports_of
ports-IsL4 a =
    All-append IsL4 (map (to_port a) (get_or a.ports [])) (single_port a a.port)
      ((All-map_iff IsL4 (to_port a) (get_or a.ports [])).1
        (All-every (λ p. l4_cases a.remote_protocol) (get_or a.ports [])))
      (single a.port)
  where
    single : (o : Option ℕ) → All IsL4 (single_port a o)
    single none = tt
    single (some p) = (l4_cases a.remote_protocol, tt)

-- A policy that allows something definite: one rule, in the direction of the allow rule alone, with
-- some peer (a rule without peers would allow everything) and TCP or UDP ports.
pub record IsGuarded (a : Allow) (p : NetworkPolicy) : Type 0 where
  pub rule : Rule
  pub peers : IsNonempty rule.peers
  pub ports : All IsL4 rule.ports
  pub types : p.policy_types ≡ a.direction ∷ []
  pub placed :
      ((p.egress ≡ some (rule ∷ [])) × (p.ingress ≡ none))
      ⊎ ((p.ingress ≡ some (rule ∷ [])) × (p.egress ≡ none))

in_one_direction :
    (d : Direction) (r : Rule)
    → ((in_direction Direction.egress d r ≡ some (r ∷ []))
        × (in_direction Direction.ingress d r ≡ none))
      ⊎ ((in_direction Direction.ingress d r ≡ some (r ∷ []))
          × (in_direction Direction.egress d r ≡ none))
in_one_direction Direction.egress r = inl (refl, refl)
in_one_direction Direction.ingress r = inr (refl, refl)

generate-IsGuarded :
    (known : KnownPeers) (ns : String) (a : Allow) (mode : Option Mode)
    → HasPeers known
    → IsRemote a
    → IsGuarded a (generate known ns a mode)
unfolding generate
generate-IsGuarded known ns a mode has r = record {
  rule = record { peers = get_peers known a mode; ports = ports_of a };
  peers = get_peers-IsNonempty known a mode has r;
  ports = ports-IsL4 a;
  types = refl;
  placed = in_one_direction a.direction _;
}

All-implies {ℓ} :
    {A : Type ℓ} {P Q : A → Type 0} (f : (x : A) → P x → Q x) (xs : List A) → All P xs → All Q xs
All-implies f [] h = tt
All-implies f (x ∷ xs) (p, h) = (f x p, All-implies f xs h)

module _ (lower : Text → Text) (parse_path : String → Option String) where
  -- Every allow rule of a package that the validator approves, as migrated, makes a network policy
  -- with one rule, in the direction of the allow rule alone, with at least one peer and with TCP or
  -- UDP ports only; the peers of the API server are supposed to be some, once known.
  pub approved-IsGuarded :
      (config : Config) (store : Store) (raw : Package) (known : KnownPeers) (ns : String)
      (mode : Option Mode)
      → HasPeers known
      → validator lower parse_path config store raw ≡ ok tt
      → All (λ a. IsGuarded a (generate known ns a mode)) (migrate raw).allow
  approved-IsGuarded config store raw known ns mode has h =
      let pkg = migrate raw in
      let (_, lists) = (validator_iff lower parse_path config store raw).0 h in
      let (good, _) = (check_allows_iff lower (mode_of pkg) pkg.name pkg.allow).0 lists.allows in
      All-implies (λ a g. generate-IsGuarded known ns a mode has g.0) pkg.allow good
