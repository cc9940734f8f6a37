-- ===== src/Validator/Clients/Laws.antt =====
-- Which clients the package validator takes.
use uds_core.Prelude.{
  String, Bool, true, false, not, Option, some, List, [], ◌∷◌, ◌++◌, map, get_or, given, is_some,
  includes, keys, codes, contains, ◌≡◌, ◌≢◌, ◌⊎◌, ◌↔◌, inl, inr, refl, arith, eq_iff, eq_refl, All,
  All-iff, All-map_iff, IsDistinct, IsFresh, IsFresh-iff, Bool-cases, Option-cases,
}
use uds_core.Crd.Package.{Sso}
use uds_core.Names.{Text}
use uds_core.Names.Generated.{sanitize, Config}
use uds_core.Packages.Store.{Store, find_packages_with_sso_client_id}
use uds_core.Validator.{Refusal}
use uds_core.Validator.Guards.{
  NoneHolds, NoneHolds-append, Passes, Passes->>, text_eq_iff, includes-false, opt_eq_iff,
}
use uds_core.Validator.Exposes.{nonempty, taken}
use uds_core.Validator.Clients.{
  allowed_attributes, is_on, not_off, is_saml, attribute, secret_name_of, has_secret,
  is_device_flow_only, public_guards, attribute_guards, redirects, id_guards, redirect_guards,
  authservice_guards, client_guards, check_clients,
}

-- What a public client must be: no secret, no service account, no authservice, OpenID Connect; and
-- for the device flow alone, or with public clients enabled and PKCE pinned to S256.
pub record IsSafePublic (config : Config) (c : Sso) : Type 0 where
  pub oidc : is_saml c.protocol ≡ false
  pub no_accounts : is_on c.service_accounts_enabled ≡ false
  pub no_secret : has_secret c ≡ false
  pub no_authservice : is_some c.enable_authservice_selector ≡ false
  pub flow :
      (is_device_flow_only c ≡ true)
      ⊎ ((config.allow_public_clients ≡ true)
          × (attribute c.attributes "pkce.code.challenge.method" ≡ some "S256"))

pub record IsSafeFlow (config : Config) (c : Sso) : Type 0 where
  pub public : is_on c.public_client ≡ true → IsSafePublic config c
  pub confidential :
      is_on c.public_client ≡ false
      → is_on c.service_accounts_enabled ≡ true
      → is_on c.standard_flow_enabled ≡ false

safe_tests :
    (config : Config) (c : Sso)
    → is_on c.public_client ≡ true
    → IsSafePublic config c
    → NoneHolds (public_guards config c)
unfolding public_guards
safe_tests config c on s =
    let a = s.oidc in
    let b = s.no_accounts in
    let d = s.no_secret in
    let e = s.no_authservice in
    let (pk, pk') = opt_eq_iff (attribute c.attributes "pkce.code.challenge.method") "S256" in
    let flow = s.flow in
    (
      ground arith,
      (
        ground arith,
        (
          ground arith,
          (ground arith, (ground arith, (ground arith, (ground arith, (ground arith, tt))))),
        ),
      ),
    )

public_iff : (config : Config) (c : Sso) → NoneHolds (public_guards config c) ↔ IsSafeFlow config c
unfolding public_guards
public_iff config c =
    let (pk, pk') = opt_eq_iff (attribute c.attributes "pkce.code.challenge.method") "S256" in
    (
      λ h. record {
        public = λ on. record {
          oidc = ground arith;
          no_accounts = ground arith;
          no_secret = ground arith;
          no_authservice = ground arith;
          flow = elim (Bool-cases (is_device_flow_only c)) [
            | inl device ↦ inl device
            | inr other ↦ inr (ground arith, pk (ground arith))
          ];
        };
        confidential = λ off sa. ground arith;
      },
      λ h. elim (Bool-cases (is_on c.public_client)) [
        | inl on ↦ safe_tests config c on (h.public on)
        | inr off ↦
            let accounts = h.confidential off in
            (
              ground arith,
              (
                ground arith,
                (
                  ground arith,
                  (
                    ground arith,
                    (ground arith, (ground arith, (ground arith, (ground arith, tt)))),
                  ),
                ),
              ),
            )
      ],
    )

pub IsRedirect : (String → Option String) → String → Type 0
IsRedirect parse_path uri = (path : String) × (parse_path uri ≡ some path) × (path ≢ "/")

-- A client that signs in through authservice.
pub record IsAuthservice (parse_path : String → Option String) (c : Sso) : Type 0 where
  pub no_colon : contains (codes c.client_id) (codes ":") ≡ false
  pub redirects : All (IsRedirect parse_path) (redirects c)

module _ (parse_path : String → Option String) where
  redirect_iff :
      (c : Sso) (uris : List String)
      → NoneHolds (redirect_guards parse_path c uris) ↔ All (IsRedirect parse_path) uris
  unfolding redirect_guards IsRedirect
  redirect_iff c [] = (λ h. tt, λ h. tt)
  redirect_iff c (uri ∷ uris) =
      let (ih, hi) = redirect_iff c uris in
      elim (Option-cases (parse_path uri)) [
        | inl bad ↦ (
          λ (e, _). absurd (ground (arith, bad)),
          λ ((path, e, n), _). absurd (ground (arith, bad, e)),
        )
        | inr (path, good) ↦ (
          λ (e, (f, h)).
              ((path, good, λ root. absurd (ground (arith, good, f, root, eq_refl path))), ih h),
          λ ((path', e, n), h).
              (ground (arith, good), (ground (arith, e, n, eq_iff path' "/"), hi h)),
        )
      ]

  authservice_guards-IsAuthservice :
      (c : Sso)
      → NoneHolds (authservice_guards parse_path c)
        ↔ (is_some c.enable_authservice_selector ≡ true → IsAuthservice parse_path c)
  unfolding authservice_guards
  authservice_guards-IsAuthservice c =
      let (to, from) = redirect_iff c (redirects c) in
      elim (Bool-cases (is_some c.enable_authservice_selector)) [
        | inl on ↦ rw on (
          λ (e, h). λ yes. record { no_colon = e; redirects = to h },
          λ h. let s = h refl in (s.no_colon, from s.redirects),
        )
        | inr off ↦ rw off (λ h. λ no. absurd (ground arith), λ h. tt)
      ]

not-eq-false : (b : Bool) → (not b ≡ false) ↔ (b ≡ true)
not-eq-false b = ground arith

attribute_iff :
    (c : Sso)
    → NoneHolds (attribute_guards c)
      ↔ All (λ k. includes allowed_attributes k ≡ true) (keys (get_or c.attributes []))
unfolding attribute_guards
attribute_iff c =
    let ks = keys (get_or c.attributes []) in
    let (to, from) =
      All-map_iff (λ (g : Bool × Refusal). g.0 ≡ false)
        (λ k. (not (includes allowed_attributes k), Refusal.bad_attribute c.client_id k)) ks in
    let (f, g) =
      All-iff {P = λ k. not (includes allowed_attributes k) ≡ false}
        {Q = λ k. includes allowed_attributes k ≡ true}
        (λ k. not-eq-false (includes allowed_attributes k)) ks in
    (λ h. f (to h), λ h. from (g h))

abbrev IsIdentified : (Text → Text) → Store → String → Sso → Type 0
IsIdentified lower store ns c =
    (taken (find_packages_with_sso_client_id store c.client_id) ns ≡ false)
    × (given (secret_name_of c.secret_config) ≡ true
        → codes (get_or (secret_name_of c.secret_config) "")
          ≡ sanitize lower (get_or (secret_name_of c.secret_config) ""))
    × (not_off c.standard_flow_enabled ≡ true → nonempty (redirects c) ≡ true)

abbrev pub ids : List Sso → List String
ids cs = map (λ (c : Sso). c.client_id) cs

-- A client that the validator takes.
pub record IsClient (lower : Text → Text) (parse_path : String → Option String) (config : Config)
    (store : Store) (ns : String) (c : Sso) : Type 0 where
  pub identified : IsIdentified lower store ns c
  pub flow : IsSafeFlow config c
  pub attributes : All (λ k. includes allowed_attributes k ≡ true) (keys (get_or c.attributes []))
  pub authservice : is_some c.enable_authservice_selector ≡ true → IsAuthservice parse_path c

module _ (lower : Text → Text) (parse_path : String → Option String) (config : Config)
    (store : Store) (ns : String) where
  id_iff :
      (seen : List String) (c : Sso)
      → NoneHolds (id_guards lower store ns seen c)
        ↔ (All (λ t. t ≢ c.client_id) seen × IsIdentified lower store ns c)
  unfolding id_guards
  id_iff seen c =
      let (u, u') = includes-false seen c.client_id in
      let n = get_or (secret_name_of c.secret_config) "" in
      let (t, t') = text_eq_iff (codes n) (sanitize lower n) in
      (
        λ (a, (b, (d, (e, _)))). (u a, (b, λ g. t (ground arith), λ g. ground arith)),
        λ (a, (b, d, e)). (u' a, (b, (ground (arith, t'), (ground arith, tt)))),
      )

  loop_iff :
      (seen : List String) (cs : List Sso)
      → Passes (check_clients lower parse_path config store ns seen cs)
        ↔ (All (IsClient lower parse_path config store ns) cs × IsFresh seen (ids cs))
  unfolding check_clients client_guards
  loop_iff seen [] = (λ h. (tt, tt), λ h. (seen, refl))
  loop_iff seen (c ∷ cs) =
      let first = id_guards lower store ns seen c in
      let last = attribute_guards c ++ authservice_guards parse_path c in
      let others = public_guards config c ++ last in
      let (to, from) =
        Passes->> (first ++ others)
          (check_clients lower parse_path config store ns (c.client_id ∷ seen) cs) in
      let (to1, from1) = NoneHolds-append first others in
      let (to2, from2) = NoneHolds-append (public_guards config c) last in
      let (to3, from3) = NoneHolds-append (attribute_guards c) (authservice_guards parse_path c) in
      let (i, i') = id_iff seen c in
      let (p, p') = public_iff config c in
      let (a, a') = attribute_iff c in
      let (s, s') = authservice_guards-IsAuthservice parse_path c in
      let (ih, hi) = loop_iff (c.client_id ∷ seen) cs in
      (
        λ h.
            let (chain, later) = to h in
            let (x, rest) = to1 chain in
            let (y, others') = to2 rest in
            let (z, w) = to3 others' in
            let (new, identified) = i x in
            let (good, fresh) = ih later in
            (
              (
                record { identified = identified; flow = p y; attributes = a z; authservice = s w },
                good,
              ),
              (new, fresh),
            ),
        λ ((g, good), (new, fresh)). from (
          from1 (
            i' (new, g.identified),
            from2 (p' g.flow, from3 (a' g.attributes, s' g.authservice)),
          ),
          hi (good, fresh),
        ),
      )

  -- The validator takes a list of clients exactly when their ids all differ and each of them has
  -- an id that no other namespace holds alone, a secret name that Kubernetes takes, redirect URIs
  -- if its standard flow is on, only known attributes, for authservice no colon in its id and
  -- no root redirect; a public client has no secret, service account, authservice or SAML and
  -- uses the device flow alone, or S256 where public clients are enabled; and a confidential
  -- client has no service account beside an explicit standard flow.
  pub check_clients_iff :
      (cs : List Sso)
      → Passes (check_clients lower parse_path config store ns [] cs)
        ↔ (All (IsClient lower parse_path config store ns) cs × IsDistinct (ids cs))
  check_clients_iff cs =
      let (to, from) = loop_iff [] cs in
      let (d, e) = IsFresh-iff (ids cs) in
      (
        λ h. let (good, fresh) = to h in (good, d fresh),
        λ (good, distinct). from (good, e distinct),
      )
