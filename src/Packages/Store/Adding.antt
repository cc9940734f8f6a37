-- ===== src/Packages/Store/Adding.antt =====
-- `add` of the package store and its consistency.
use uds_core.Prelude.{
  String, true, Option, none, some, [], ◌∷◌, ◌==◌, if◌then◌else◌, lookup, insert, ok, ◌≡◌, ◌⊎◌, inl,
  inr, refl, arith, eq_iff, eq_refl, lookup-insert, ◌∙◌, sym, ap, Bool-cases, some_injective,
}
use uds_core.Crd.Package.{Package}
use uds_core.Packages.Index.{index_add_all}
use uds_core.Packages.Store.{
  Store, sso_keys, udp_keys, add_indexes, remove_indexes, is_valid, namespace_map, add,
  get_pkg_name, get_package_by_namespace,
}
use uds_core.Packages.Store.Consistency.{Consistent, dropped, index-replaced}

-- The store after a package has been registered for a namespace.
abbrev registered : Store → Package → String → String → Option Package → Store
registered s pkg ns n old = record {
  packages = insert ns ((n, pkg) ∷ []) s.packages;
  sso_index = index_add_all (sso_keys pkg) ns (dropped sso_keys old ns s.sso_index);
  udp_index = index_add_all (udp_keys pkg) ns (dropped udp_keys old ns s.udp_index);
}

get-registered :
    (s : Store) (pkg : Package) (ns n : String) (old : Option Package) (m : String)
    → get_package_by_namespace (registered s pkg ns n old) m
      ≡ (if ns == m then some pkg else get_package_by_namespace s m)
unfolding get_package_by_namespace
get-registered s pkg ns n old m = ground (arith, lookup-insert ns m ((n, pkg) ∷ []) s.packages)

registered-Consistent :
    (s : Store) (pkg : Package) (ns n : String)
    → Consistent s
    → (old : Option Package) → get_package_by_namespace s ns ≡ old
    → pkg.namespace ≡ some ns
    → pkg.name ≡ some n
    → Consistent (registered s pkg ns n old)
registered-Consistent s pkg ns n c old e p q = record {
  single = λ m. elim (Bool-cases (ns == m)) [
    | inl same ↦ inr (
      n,
      pkg,
      ground (arith, same, lookup-insert ns m ((n, pkg) ∷ []) s.packages),
      p ∙ ap some ((eq_iff ns m).0 same),
      q,
    )
    | inr other ↦ rw (lookup-insert ns m ((n, pkg) ∷ []) s.packages) (rw other (c.single m))
  ];
  sso = λ k m.
      index-replaced sso_keys (get_package_by_namespace s) ns s.sso_index c.sso old e pkg k m
      ∙ rw (get-registered s pkg ns n old m) refl;
  udp = λ k m.
      index-replaced udp_keys (get_package_by_namespace s) ns s.udp_index c.udp old e pkg k m
      ∙ rw (get-registered s pkg ns n old m) refl;
}

-- The namespace is free for the package: it has no package, or one of the same name.
abbrev pub IsFree : Store → String → String → Type 0
IsFree s ns n = (get_pkg_name s ns ≡ none) ⊎ (get_pkg_name s ns ≡ some n)

same_name :
    (s : Store) (ns n : String) {n' : String} {p : Package}
    → lookup ns s.packages ≡ some ((n', p) ∷ [])
    → IsFree s ns n
    → n' ≡ n
unfolding get_pkg_name
same_name s ns n e free = ground (arith, e, free)

add-eq :
    (s : Store) (pkg : Package) (ns n : String)
    → pkg.namespace ≡ some ns
    → pkg.name ≡ some n
    → is_valid pkg ≡ true
    → (old : Option Package) → lookup n (namespace_map s ns) ≡ old
    → ((x : Package) → insert n x (namespace_map s ns) ≡ (n, x) ∷ [])
    → ((p : Package) → old ≡ some p → p.namespace ≡ some ns)
    → add pkg s ≡ ok (registered s pkg ns n old)
unfolding add add_indexes remove_indexes dropped
add-eq s pkg ns n p q v none e i h = rw v (rw p (rw q (rw e (rw (i _) refl))))
add-eq s pkg ns n p q v (some old) e i h =
    rw v (rw p (rw q (rw e (rw (i _) (rw (h old refl) refl)))))

add-registered :
    (s : Store) (pkg : Package) (ns n : String)
    → Consistent s
    → pkg.namespace ≡ some ns
    → pkg.name ≡ some n
    → IsFree s ns n
    → is_valid pkg ≡ true
    → (old : Option Package) × (get_package_by_namespace s ns ≡ old)
      × (add pkg s ≡ ok (registered s pkg ns n old))
unfolding get_package_by_namespace
add-registered s pkg ns n c p q free v = elim (c.single ns) [
  | inl empty ↦ (
    none,
    ground (arith, empty),
    add-eq s pkg ns n p q v none (rw empty refl) (λ _. rw empty refl) (λ _ eq. ground (arith, eq)),
  )
  | inr (n', old, e, p', q') ↦ (
    some old,
    ground (arith, e),
    add-eq s pkg ns n p q v (some old) (ground (arith, e, same_name s ns n e free, eq_refl n))
        (λ x. ground (arith, e, same_name s ns n e free, eq_refl n))
        (λ r eq. ap (λ (x : Package). x.namespace) (sym (some_injective eq)) ∙ p'),
  )
]

-- A package with a namespace and a name, added to a consistent store in whose namespace no
-- package of another name stands, is added without an error; the store stays consistent
-- (each namespace has at most one package, and a client id or a gateway's UDP port leads to
-- exactly the namespaces whose package uses it), the namespace has the package, and every other
-- namespace has the package that it had.
pub add-Consistent :
    (s : Store) (pkg : Package) (ns n : String)
    → Consistent s
    → pkg.namespace ≡ some ns
    → pkg.name ≡ some n
    → is_valid pkg ≡ true
    → IsFree s ns n
    → (s' : Store) × (add pkg s ≡ ok s')
      × Consistent s'
      × ((m : String)
          → get_package_by_namespace s' m
            ≡ (if ns == m then some pkg else get_package_by_namespace s m))
add-Consistent s pkg ns n c p q v free =
    let (old, had, e) = add-registered s pkg ns n c p q free v in
    (
      registered s pkg ns n old,
      e,
      registered-Consistent s pkg ns n c old had p q,
      get-registered s pkg ns n old,
    )
