-- ===== src/Validator/Reachable/Free.antt =====
-- What the approval of a package says of the store.
use mathlib.Core.Path.{subst}
use uds_core.Prelude.{
  ℕ, String, Bool, true, false, ◌||◌, ◌==◌, Option, none, some, List, [], ◌∷◌, ◌++◌, map, get_or,
  given, includes, ok, ◌≡◌, ◌⊎◌, inl, inr, refl, arith, eq_iff, Bool-cases, All,
}
use uds_core.Crd.Package.{Package, Sso, Expose, ExposeProtocol}
use uds_core.Crd.Migrate.{migrate}
use uds_core.Crd.Migrate.Laws.{migrate-keys}
use uds_core.Names.{Text}
use uds_core.Names.Generated.{Config}
use uds_core.Packages.Index.{Index, find}
use uds_core.Packages.Store.{
  Store, sso_keys, udp_keys, expose_keys, exposes_keys, udp_gateway_port_key, has_key, get_pkg_name,
  find_packages_with_sso_client_id,
}
use uds_core.Packages.Store.Adding.{IsFree}
use uds_core.Validator.Exposes.{taken, tail, head_or_false, port_key, is_udp}
use uds_core.Validator.Exposes.Laws.{IsUdpRoute}
use uds_core.Validator.Exposes.Laws.Keys.{AreExposed, check_exposes_iff}
use uds_core.Validator.Clients.Laws.{IsClient, check_clients_iff}
use uds_core.Validator.Handler.{validator, unknown, had_match}
use uds_core.Validator.Handler.Laws.{validator_iff, IsPlaced, HasGoodLists}

-- The namespaces that hold a key are none, or the package's own is among them.
abbrev pub KeysAreFree : Index → String → List String → Type 0
KeysAreFree idx ns keys = (k : String) → includes keys k ≡ true → taken (find idx k) ns ≡ false

module _ (lower : Text → Text) (parse_path : String → Option String) (config : Config) where
  clients_free :
      (store : Store) (ns : String) (cs : List Sso)
      → All (IsClient lower parse_path config store ns) cs
      → KeysAreFree store.sso_index ns (map (λ (c : Sso). c.client_id) cs)
  unfolding find_packages_with_sso_client_id
  clients_free store ns [] h k i = absurd (ground arith)
  clients_free store ns (c ∷ cs) (g, h) k i = elim (Bool-cases (c.client_id == k)) [
    | inl same ↦ rw (← (eq_iff c.client_id k).0 same) g.identified.0
    | inr other ↦ clients_free store ns cs h k (ground arith)
  ]

  udp_free :
      (store : Store) (ns : String) (had : Bool) (e : Expose)
      → (o : Option ExposeProtocol) → e.protocol ≡ o
      → (p : Option ℕ) → e.port ≡ p
      → (is_udp e.protocol ≡ true → IsUdpRoute store ns had e)
      → KeysAreFree store.udp_index ns (expose_keys e o p)
  udp_free store ns had e none q p r u k i = absurd (ground arith)
  udp_free store ns had e (some ExposeProtocol.http) q p r u k i = absurd (ground arith)
  udp_free store ns had e (some ExposeProtocol.udp) q none r u k i = absurd (ground arith)
  udp_free store ns had e (some ExposeProtocol.udp) q (some port) r u k i =
      let key = udp_gateway_port_key e.gateway port in
      let same : key ≡ k = (eq_iff key k).0 (ground arith) in
      let free = (u (rw q refl)).free in
      subst (λ (x : String). taken (find store.udp_index x) ns ≡ false) same
        (subst (λ (x : Option ℕ). taken (find store.udp_index (port_key e.gateway x)) ns ≡ false) r
          free)

  includes-append :
      (xs ys : List String) (k : String) → includes (xs ++ ys) k ≡ (includes xs k || includes ys k)
  includes-append [] ys k = refl
  includes-append (x ∷ xs) ys k = ground (arith, includes-append xs ys k)

  exposes_free :
      (store : Store) (name ns : String) (had : List Bool) (es : List Expose)
      → AreExposed lower config store name ns had es
      → KeysAreFree store.udp_index ns (exposes_keys es)
  exposes_free store name ns had [] h k i = absurd (ground arith)
  exposes_free store name ns had (e ∷ es) ((_, u, _), h) k i =
      let keys = expose_keys e e.protocol e.port in
      let both = includes-append keys (exposes_keys es) k in
      elim (Bool-cases (includes keys k)) [
        | inl here ↦ udp_free store ns (head_or_false had) e e.protocol refl e.port refl u k here
        | inr later ↦ exposes_free store name ns (tail had) es h k (ground arith)
      ]

  module _ (store : Store) (raw : Package)
      (h : validator lower parse_path config store raw ≡ ok tt) where
    lists : HasGoodLists lower parse_path config store raw (migrate raw)
    lists = ((validator_iff lower parse_path config store raw).0 h).1

    placed : IsPlaced store (migrate raw)
    placed = ((validator_iff lower parse_path config store raw).0 h).0

    pub approved_sso : KeysAreFree store.sso_index (get_or raw.namespace unknown) (sso_keys raw)
    unfolding migrate
    approved_sso =
        let ns = get_or raw.namespace unknown in
        let (good, _) =
          (check_clients_iff lower parse_path config store ns (migrate raw).sso).0 lists.clients in
        subst (λ ks. KeysAreFree store.sso_index ns ks) (migrate-keys raw).0
          (clients_free store ns (migrate raw).sso good)

    pub approved_udp : KeysAreFree store.udp_index (get_or raw.namespace unknown) (udp_keys raw)
    unfolding migrate
    approved_udp =
        let ns = get_or raw.namespace unknown in
        let name = get_or raw.name unknown in
        let (good, _, _, _, _) =
          (check_exposes_iff lower config store name ns (had_match raw) (migrate raw).expose).0
            lists.exposes in
        subst (λ ks. KeysAreFree store.udp_index ns ks) (migrate-keys raw).1
          (exposes_free store name ns (had_match raw) (migrate raw).expose good)

    -- The namespace of the package has no package of another name.
    pub approved-IsFree :
        (ns n : String)
        → raw.namespace ≡ some ns
        → raw.name ≡ some n
        → (given raw.deletion_timestamp ≡ false) ⊎ (get_pkg_name store ns ≡ some n)
        → IsFree store ns n
    unfolding migrate has_key get_pkg_name
    approved-IsFree ns n p q (inr same) = inr same
    approved-IsFree ns n p q (inl live) = elim (Bool-cases (has_key store ns)) [
      | inl known ↦ inr (ground (arith, p, q, live, known, placed.free))
      | inr free ↦ inl (ground (arith, free))
    ]
