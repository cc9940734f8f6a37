-- ===== src/Crd/Migrate/Laws.antt =====
-- What migration leaves, and that it changes nothing the second time.
use uds_core.Prelude.{
  Bool, true, false, Option, none, some, List, [], ◌∷◌, map, given, length, ◌≡◌, refl, ap, arith,
  All, suc, Option-cases, inl, inr, Bool-cases,
}
use uds_core.Crd.Package.{
  Expose, http, udp, Allow, Sso, AuthserviceClients, legacy, objects, Status, Package,
}
use uds_core.Crd.Migrate.{
  migrate_expose, migrate_allow, migrate_sso, migrated_clients, migrate_status, migrate,
  is_deprecated,
}
use uds_core.Packages.Store.{sso_keys, udp_keys, exposes_keys, expose_keys}

abbrev no_legacy : Option AuthserviceClients → Bool
no_legacy none = true
no_legacy (some (legacy [])) = true
no_legacy (some (legacy (id ∷ ids))) = false
no_legacy (some (objects cs)) = true

abbrev pub is_current : Option Status → Bool
is_current none = true
is_current (some st) = no_legacy st.authservice_clients

-- No deprecated field that counts as set.
pub record IsMigrated (p : Package) : Type 0 where
  pub expose : All (λ (e : Expose). e.match ≡ none) p.expose
  pub allow : All (λ (a : Allow). (a.pod_labels ≡ none) × (a.remote_pod_labels ≡ none)) p.allow
  pub sso : All (λ s. is_deprecated s ≡ false) p.sso
  pub status : is_current p.status ≡ true

All-migrated {ℓ} :
    {A : Type 0} (P : A → Type ℓ) (f : A → A) (h : (x : A) → P (f x)) (xs : List A)
    → All P (map f xs)
All-migrated P f h [] = tt
All-migrated P f h (x ∷ xs) = (h x, All-migrated P f h xs)

expose_done : (e : Expose) → (migrate_expose e).match ≡ none
unfolding migrate_expose
expose_done e = elim (Option-cases e.match) [
  | inl old ↦ ground (arith, old)
  | inr (ms, old) ↦ ground (arith, old)
]

allow_done :
    (a : Allow)
    → ((migrate_allow a).pod_labels ≡ none) × ((migrate_allow a).remote_pod_labels ≡ none)
unfolding migrate_allow
allow_done a = elim (Option-cases a.pod_labels) [
  | inl e ↦ elim (Option-cases a.remote_pod_labels) [
    | inl r ↦ ground (arith, e, r)
    | inr (ls, r) ↦ ground (arith, e, r)
  ]
  | inr (ks, e) ↦ elim (Option-cases a.remote_pod_labels) [
    | inl r ↦ ground (arith, e, r)
    | inr (ls, r) ↦ ground (arith, e, r)
  ]
]

sso_done : (s : Sso) → is_deprecated (migrate_sso s) ≡ false
unfolding migrate_sso
sso_done s = elim (Bool-cases (is_deprecated s)) [
  | inl e ↦ rw e (elim (Option-cases s.secret_name) [
    | inl n ↦ rw n refl
    | inr (n, q) ↦ elim (Bool-cases (given (some n))) [
      | inl t ↦ rw q (rw t refl)
      | inr f ↦ rw q (rw f (rw f refl))
    ]
  ])
  | inr e ↦ rw e e
]

clients_done :
    (sso : List Sso) (st : Status)
    → (cs : Option AuthserviceClients) → st.authservice_clients ≡ cs
    → is_current (migrate_status sso (some st)) ≡ true
unfolding migrate_status migrated_clients
clients_done sso st none e = rw e refl
clients_done sso st (some (legacy [])) e = rw e refl
clients_done sso st (some (legacy (id ∷ ids))) e = rw e refl
clients_done sso st (some (objects [])) e = rw e refl
clients_done sso st (some (objects (c ∷ cs))) e = rw e refl

status_done : (sso : List Sso) (o : Option Status) → is_current (migrate_status sso o) ≡ true
unfolding migrate_status
status_done sso none = refl
status_done sso (some st) = clients_done sso st st.authservice_clients refl

pub migrate-IsMigrated : (p : Package) → IsMigrated (migrate p)
unfolding migrate
migrate-IsMigrated p = record {
  expose = All-migrated _ migrate_expose expose_done p.expose;
  allow = All-migrated _ migrate_allow allow_done p.allow;
  sso = All-migrated _ migrate_sso sso_done p.sso;
  status = status_done (map migrate_sso p.sso) p.status;
}

-- A list whose members a function leaves alone.
map_same {ℓ κ} :
    {A : Type ℓ} {P : A → Type κ} (f : A → A) (h : (x : A) → P x → f x ≡ x) (xs : List A)
    → All P xs
    → map f xs ≡ xs
map_same f h [] all = refl
map_same f h (x ∷ xs) (p, all) = ground (arith, h x p, map_same f h xs all)

expose_same : (e : Expose) → e.match ≡ none → migrate_expose e ≡ e
unfolding migrate_expose
expose_same e h = rw h refl

allow_same :
    (a : Allow) → (a.pod_labels ≡ none) × (a.remote_pod_labels ≡ none) → migrate_allow a ≡ a
unfolding migrate_allow
allow_same a (h, k) = rw h (rw k refl)

sso_same : (s : Sso) → is_deprecated s ≡ false → migrate_sso s ≡ s
unfolding migrate_sso
sso_same s h = rw h refl

clients_same :
    (sso : List Sso) (st : Status)
    → (cs : Option AuthserviceClients) → st.authservice_clients ≡ cs
    → no_legacy cs ≡ true
    → migrate_status sso (some st) ≡ some st
unfolding migrate_status migrated_clients
clients_same sso st none e h = rw e refl
clients_same sso st (some (legacy [])) e h = rw e refl
clients_same sso st (some (legacy (id ∷ ids))) e h = absurd (ground arith)
clients_same sso st (some (objects [])) e h = rw e refl
clients_same sso st (some (objects (c ∷ cs))) e h = rw e refl

status_same : (sso : List Sso) (o : Option Status) → is_current o ≡ true → migrate_status sso o ≡ o
unfolding migrate_status
status_same sso none h = refl
status_same sso (some st) h = clients_same sso st st.authservice_clients refl h

-- Migration leaves a package alone that has no deprecated field.
pub migrate_same : (p : Package) → IsMigrated p → migrate p ≡ p
unfolding migrate
migrate_same p m = rw (map_same migrate_expose expose_same p.expose m.expose) (
    rw (map_same migrate_allow allow_same p.allow m.allow) (
      rw (map_same migrate_sso sso_same p.sso m.sso)
        (rw (status_same p.sso p.status m.status) refl)))

-- After a migration no deprecated field counts as set, and a second migration changes nothing.
pub migrate-migrate : (p : Package) → IsMigrated (migrate p) × (migrate (migrate p) ≡ migrate p)
migrate-migrate p = (migrate-IsMigrated p, migrate_same (migrate p) (migrate-IsMigrated p))

sso_id : (s : Sso) → (migrate_sso s).client_id ≡ s.client_id
unfolding migrate_sso
sso_id s = ground arith

sso_ids :
    (ss : List Sso)
    → map (λ (c : Sso). c.client_id) (map migrate_sso ss) ≡ map (λ (c : Sso). c.client_id) ss
sso_ids [] = refl
sso_ids (s ∷ ss) = ground (arith, sso_id s, sso_ids ss)

migrated_keys :
    (e : Expose)
    → expose_keys (migrate_expose e) (migrate_expose e).protocol (migrate_expose e).port
      ≡ expose_keys e e.protocol e.port
unfolding migrate_expose
migrated_keys e = elim (Option-cases e.match) [
  | inl none_given ↦ rw none_given refl
  | inr (ms, old) ↦ rw old (elim e.protocol [
    | none ↦ refl
    | some http ↦ refl
    | some udp ↦ elim e.port [ none ↦ refl | some n ↦ refl ]
  ])
]

length-map {ℓ κ} :
    {A : Type ℓ} {B : Type κ} (f : A → B) (xs : List A) → length (map f xs) ≡ length xs
length-map f [] = refl
length-map f (x ∷ xs) = ap suc (length-map f xs)

exposes_same : (es : List Expose) → exposes_keys (map migrate_expose es) ≡ exposes_keys es
exposes_same [] = refl
exposes_same (e ∷ es) = ground (arith, migrated_keys e, exposes_same es)

-- Migration keeps what the package store reads: the client ids and the UDP ports with their
-- gateways; and the number of exposed services.
pub migrate-keys :
    (p : Package)
    → (sso_keys (migrate p) ≡ sso_keys p)
      × (udp_keys (migrate p) ≡ udp_keys p)
      × (length (migrate p).expose ≡ length p.expose)
unfolding migrate
migrate-keys p = (sso_ids p.sso, exposes_same p.expose, length-map migrate_expose p.expose)
