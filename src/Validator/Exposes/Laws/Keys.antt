-- ===== src/Validator/Exposes/Laws/Keys.antt =====
-- The names, ports and domains that the entries of a package take, and the whole loop.
use uds_core.Prelude.{
  String, Bool, true, false, List, [], ◌∷◌, ◌++◌, if◌then◌else◌, ◌≡◌, ◌≢◌, ◌↔◌, inl, inr, refl,
  arith, All, IsDistinct, IsFresh, IsFresh-iff, Bool-cases,
}
use uds_core.Crd.Package.{Expose}
use uds_core.Names.{Text}
use uds_core.Names.Generated.{generate_vs_name, Config, get_fqdn}
use uds_core.Packages.Store.{Store}
use uds_core.Validator.Guards.{NoneHolds, NoneHolds-append, Passes, Passes->>}
use uds_core.Validator.Exposes.{
  Seen, nothing_seen, is_udp, paths_of, nonempty, port_key, gateway_guards, route_name, udp_guards,
  http_guards, uptime_guards, expose_guards, note_expose, head_or_false, tail, check_exposes,
}
use uds_core.Validator.Exposes.Laws.{
  IsUdpRoute, IsHttpRoute, HasGateway, gateway_iff, udp_iff, http_iff,
}

abbrev pub ports : List Expose → List String
ports [] = []
ports (e ∷ es) =
    let rest = ports es in if is_udp e.protocol then port_key e.gateway e.port ∷ rest else rest

probe_iff {ℓ} :
    {A : Type ℓ} (b : Bool) (x : A) (seen rest : List A)
    → ((b ≡ true → All (λ y. y ≢ x) seen) × IsFresh (if b then x ∷ seen else seen) rest)
      ↔ IsFresh seen (if b then x ∷ rest else rest)
probe_iff true x seen rest = (λ (h, k). (h refl, k), λ (h, k). (λ _. h, k))
probe_iff false x seen rest = (λ (h, k). k, λ k. (λ no. absurd (ground arith), k))

abbrev has_probe : Expose → Bool
has_probe e = if is_udp e.protocol then false else nonempty (paths_of e.uptime)

module _ (lower : Text → Text) (name : String) where
  abbrev pub routes : List Expose → List Text
  routes [] = []
  routes (e ∷ es) =
      let rest = routes es in if is_udp e.protocol then route_name lower name e ∷ rest else rest

  abbrev pub services : List Expose → List Text
  services [] = []
  services (e ∷ es) =
      let rest = services es in
      if is_udp e.protocol then rest else generate_vs_name lower name e ∷ rest

module _ (config : Config) where
  abbrev pub fqdns : List Expose → List String
  fqdns [] = []
  fqdns (e ∷ es) = let rest = fqdns es in if has_probe e then get_fqdn config e ∷ rest else rest

module _ (lower : Text → Text) (config : Config) (store : Store) (name ns : String) where
  -- An entry, with whether it had the deprecated `match`.
  abbrev pub IsExposed : Bool → Expose → Type 0
  IsExposed had e =
      HasGateway lower e
      × (is_udp e.protocol ≡ true → IsUdpRoute store ns had e)
      × (is_udp e.protocol ≡ false → IsHttpRoute e)

  abbrev pub AreExposed : List Bool → List Expose → Type 0
  AreExposed had [] = Unit
  AreExposed had (e ∷ es) = IsExposed (head_or_false had) e × AreExposed (tail had) es

  abbrev AreFresh : Seen → List Expose → Type 0
  AreFresh seen es =
      IsFresh seen.routes (routes lower name es)
      × IsFresh seen.ports (ports es)
      × IsFresh seen.services (services lower name es)
      × IsFresh seen.fqdns (fqdns config es)

  step_iff :
      (seen : Seen) (had : Bool) (e : Expose) (es : List Expose)
      → (NoneHolds (expose_guards lower config store name ns had seen e)
          × AreFresh (note_expose lower config name seen e) es)
        ↔ (IsExposed had e × AreFresh seen (e ∷ es))
  unfolding expose_guards note_expose
  step_iff seen had e es =
      let (g, g') = gateway_iff lower e in
      elim (Bool-cases (is_udp e.protocol)) [
        | inl udp ↦
            let tests = udp_guards lower store name ns had seen e in
            let (to, from) = NoneHolds-append (gateway_guards lower e) tests in
            let (u, u') = udp_iff lower store name ns had seen e in
            rw udp (
              λ (n, (r, p, s, f)).
                  let (gateway, others) = to n in
                  let (a, b, c) = u others in
                  ((g gateway, λ _. c, λ no. absurd (ground arith)), ((a, r), (b, p), s, f)),
              λ ((gateway, c, _), ((a, r), (b, p), s, f)).
                  (from (g' gateway, u' (a, b, c refl)), (r, p, s, f)),
            )
        | inr http ↦
            let tests = http_guards lower name seen e ++ uptime_guards config seen e in
            let (to, from) = NoneHolds-append (gateway_guards lower e) tests in
            let (u, u') = http_iff lower config name seen e http in
            let probe = nonempty (paths_of e.uptime) in
            let (k, k') = probe_iff probe (get_fqdn config e) seen.fqdns (fqdns config es) in
            rw http (
              λ (n, (r, p, s, f)).
                  let (gateway, others) = to n in
                  let (a, b, c) = u others in
                  ((g gateway, λ no. absurd (ground arith), λ _. c), (r, p, (a, s), k (b, f))),
              λ ((gateway, _, c), (r, p, (a, s), f)).
                  let (b, f') = k' f in (from (g' gateway, u' (a, b, c refl)), (r, p, s, f')),
            )
      ]

  loop_iff :
      (had : List Bool) (seen : Seen) (es : List Expose)
      → Passes (check_exposes lower config store name ns had seen es)
        ↔ (AreExposed had es × AreFresh seen es)
  unfolding check_exposes
  loop_iff had seen [] = (λ h. (tt, (tt, tt, tt, tt)), λ h. (seen, refl))
  loop_iff had seen (e ∷ es) =
      let now = head_or_false had in
      let next = note_expose lower config name seen e in
      let (to, from) =
        Passes->> (expose_guards lower config store name ns now seen e)
          (check_exposes lower config store name ns (tail had) next es) in
      let (s, s') = step_iff seen now e es in
      let (ih, hi) = loop_iff (tail had) next es in
      (
        λ h.
            let (n, later) = to h in
            let (good, fresh) = ih later in let (x, all) = s (n, fresh) in ((x, good), all),
        λ ((x, good), all). let (n, fresh) = s' (x, all) in from (n, hi (good, fresh)),
      )

  -- The validator takes a list of exposed services exactly when each of them is either a UDP
  -- route, without the settings of HTTP and with a port of its gateway that no other namespace
  -- holds alone, or an HTTP route with a host and consistent settings; its gateway is a standard
  -- one or has a name that Kubernetes takes; and the names of the UDP routes, the ports with their
  -- gateways, the names of the virtual services and the probed domains all differ.
  pub check_exposes_iff :
      (had : List Bool) (es : List Expose)
      → Passes (check_exposes lower config store name ns had nothing_seen es) ↔ (
          AreExposed had es
          × IsDistinct (routes lower name es)
          × IsDistinct (ports es)
          × IsDistinct (services lower name es)
          × IsDistinct (fqdns config es))
  check_exposes_iff had es =
      let (to, from) = loop_iff had nothing_seen es in
      let (r, r') = IsFresh-iff (routes lower name es) in
      let (p, p') = IsFresh-iff (ports es) in
      let (s, s') = IsFresh-iff (services lower name es) in
      let (f, f') = IsFresh-iff (fqdns config es) in
      (
        λ h. let (good, (a, b, c, d)) = to h in (good, r a, p b, s c, f d),
        λ (good, a, b, c, d). from (good, (r' a, p' b, s' c, f' d)),
      )
