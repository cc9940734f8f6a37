-- ===== src/Packages/Store/Removing.antt =====
-- `remove` of the package store and its consistency.
use uds_core.Prelude.{
  String, true, none, some, [], ◌∷◌, ◌==◌, if◌then◌else◌, lookup, delete, ok, ◌≡◌, inl, inr, refl,
  arith, eq_refl, lookup-delete, ◌∙◌, sym, ap, Bool-cases,
}
use uds_core.Crd.Package.{Package}
use uds_core.Packages.Store.{
  Store, sso_keys, udp_keys, remove_indexes, is_valid, remove, get_package_by_namespace,
}
use uds_core.Packages.Store.Consistency.{Consistent, dropped, index-dropped}

abbrev unregistered : Store → Package → String → Store
unregistered s pkg ns = record {
  packages = delete ns s.packages;
  sso_index = dropped sso_keys (some pkg) ns s.sso_index;
  udp_index = dropped udp_keys (some pkg) ns s.udp_index;
}

get-unregistered :
    (s : Store) (pkg : Package) (ns m : String)
    → get_package_by_namespace (unregistered s pkg ns) m
      ≡ (if ns == m then none else get_package_by_namespace s m)
unfolding get_package_by_namespace
get-unregistered s pkg ns m = ground (arith, lookup-delete ns m s.packages)

unregistered-Consistent :
    (s : Store) (pkg : Package) (ns : String)
    → Consistent s
    → get_package_by_namespace s ns ≡ some pkg
    → Consistent (unregistered s pkg ns)
unregistered-Consistent s pkg ns c had = record {
  single = λ m. elim (Bool-cases (ns == m)) [
    | inl same ↦ inl (ground (arith, same, lookup-delete ns m s.packages))
    | inr other ↦ rw (lookup-delete ns m s.packages) (rw other (c.single m))
  ];
  sso = λ k m.
      index-dropped sso_keys (get_package_by_namespace s) ns s.sso_index c.sso (some pkg) had k m
      ∙ rw (get-unregistered s pkg ns m) refl;
  udp = λ k m.
      index-dropped udp_keys (get_package_by_namespace s) ns s.udp_index c.udp (some pkg) had k m
      ∙ rw (get-unregistered s pkg ns m) refl;
}

-- The one entry of the namespace of a package that the store has.
entry_of :
    (s : Store) (pkg : Package) (ns : String)
    → Consistent s
    → get_package_by_namespace s ns ≡ some pkg
    → (n : String) × (lookup ns s.packages ≡ some ((n, pkg) ∷ []))
      × (pkg.namespace ≡ some ns)
      × (pkg.name ≡ some n)
unfolding get_package_by_namespace
entry_of s pkg ns c had = elim (c.single ns) [
  | inl empty ↦ ground (arith, empty, had)
  | inr (n, p, e, p', q') ↦
      let same : p ≡ pkg = ground (arith, e, had) in
      (
        n,
        e ∙ ap (λ (x : Package). some ((n, x) ∷ [])) same,
        ap (λ (x : Package). x.namespace) (sym same) ∙ p',
        ap (λ (x : Package). x.name) (sym same) ∙ q',
      )
]

remove-eq :
    (s : Store) (pkg : Package) (ns n : String)
    → lookup ns s.packages ≡ some ((n, pkg) ∷ [])
    → pkg.namespace ≡ some ns
    → pkg.name ≡ some n
    → is_valid pkg ≡ true
    → remove pkg s ≡ ok (unregistered s pkg ns)
unfolding remove remove_indexes dropped
remove-eq s pkg ns n e p q v = rw v (rw p (rw e (rw q (rw (eq_refl n) refl))))

-- A package that a consistent store has in a namespace is removed without an error; the store
-- stays consistent, the namespace has no package then, and every other namespace has the
-- package that it had.
pub remove-Consistent :
    (s : Store) (pkg : Package) (ns : String)
    → Consistent s
    → get_package_by_namespace s ns ≡ some pkg
    → is_valid pkg ≡ true
    → (s' : Store) × (remove pkg s ≡ ok s')
      × Consistent s'
      × ((m : String)
          → get_package_by_namespace s' m
            ≡ (if ns == m then none else get_package_by_namespace s m))
remove-Consistent s pkg ns c had v =
    let (n, e, p, q) = entry_of s pkg ns c had in
    (
      unregistered s pkg ns,
      remove-eq s pkg ns n e p q v,
      unregistered-Consistent s pkg ns c had,
      get-unregistered s pkg ns,
    )
