-- ===== src/Reconcilers/Stale.antt =====
-- updateStatus writes the authservice clients that the status has, whatever the update says.
use uds_core.Prelude.{
  Option, none, some, List, ◌∷◌, ◌≡◌, ◌∙◌, refl, arith, sym, ap, Option-cases, inl, inr,
}
use uds_core.Crd.Package.{Package, AuthserviceClient, AuthserviceClients, objects, Status}
use uds_core.Crd.Migrate.{migrated_clients}
use uds_core.Reconcilers.{Patch, clients_of, migrated_status}

abbrev pub recorded_of : Option Status → Option AuthserviceClients
recorded_of none = none
recorded_of (some st) = st.authservice_clients

clients_of-recorded :
    (cr : Package) (c : AuthserviceClient) (cs : List AuthserviceClient)
    → recorded_of cr.status ≡ some (objects (c ∷ cs))
    → clients_of cr ≡ some (c ∷ cs)
unfolding migrated_clients
clients_of-recorded cr c cs e = elim (Option-cases cr.status) [
  | inl gone ↦ absurd (ground (arith, gone, e))
  | inr (st, here) ↦
      let held : st.authservice_clients ≡ some (objects (c ∷ cs)) = ap recorded_of (sym here) ∙ e in
      rw here (rw held refl)
]

module _ (merged : Package → Patch → Package)
    (sets_clients : (cr : Package) (p : Patch) (cs : List AuthserviceClient)
      → p.authservice_clients ≡ some cs
      → recorded_of (merged cr p).status ≡ some (objects cs)) where
  -- The packages that edits of everything but the status, and updates of the status, lead to.
  pub data Updated (cr : Package) : Package → Type 0 where
    unchanged : Updated cr cr
    updated :
        {x : Package}
        → Updated cr x
        → (y : Package) → y.status ≡ x.status
        → (p : Patch) → Updated cr (merged y (migrated_status y p))

  -- Once a package's status has authservice clients, no update of the status ever changes the list,
  -- whatever clients the update gives and however the package is edited in between; here the
  -- cluster is supposed to set the list that a patch gives.
  pub Updated-recorded :
      (cr : Package) {x : Package} (c : AuthserviceClient) (cs : List AuthserviceClient)
      → recorded_of cr.status ≡ some (objects (c ∷ cs))
      → Updated cr x
      → recorded_of x.status ≡ some (objects (c ∷ cs))
  unfolding migrated_status
  Updated-recorded cr c cs e unchanged = e
  Updated-recorded cr c cs e (updated {x} before y same p) =
      let held =
        clients_of-recorded y c cs (ap recorded_of same ∙ Updated-recorded cr c cs e before) in
      sets_clients y (migrated_status y p) (c ∷ cs) (rw held refl)
