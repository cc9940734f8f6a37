-- ===== src/Validator/Reachable/Steps.antt =====
-- Every state that admitted packages lead to is exclusive.
use mathlib.Core.Path.{subst}
use uds_core.Prelude.{
  String, true, false, Option, none, some, get_or, given, ok, ◌≡◌, ◌⊎◌, inl, inr, refl, arith,
  Bool-cases, ◌∙◌, sym, ap, ok_injective,
}
use uds_core.Crd.Package.{Package}
use uds_core.Names.{Text}
use uds_core.Names.Generated.{Config}
use uds_core.Packages.Store.{
  Store, Invalid, init, sso_keys, udp_keys, get_package_by_namespace, get_pkg_name, is_valid,
  namespace_of, name_of, add, remove,
}
use uds_core.Packages.Store.Consistency.{init-Consistent}
use uds_core.Packages.Store.Adding.{add-Consistent}
use uds_core.Packages.Store.Removing.{remove-Consistent}
use uds_core.Packages.Watch.{WatchPhase, process_packages}
use uds_core.Validator.Handler.{validator, unknown}
use uds_core.Validator.Reachable.{
  IsUnshared-added, IsUnshared-removed, IsExclusive, Watch, IsApproved, IsKnown, IsCurrent, Reach,
  start, next,
}
use uds_core.Validator.Reachable.Free.{KeysAreFree, approved_sso, approved_udp, approved-IsFree}

add-valid : (pkg : Package) (s s' : Store) → add pkg s ≡ ok s' → is_valid pkg ≡ true
unfolding add
add-valid pkg s s' e = elim (Bool-cases (is_valid pkg)) [
  | inl v ↦ v
  | inr bad ↦ absurd (ground (arith, bad, e))
]

remove-valid : (pkg : Package) (s s' : Store) → remove pkg s ≡ ok s' → is_valid pkg ≡ true
unfolding remove
remove-valid pkg s s' e = elim (Bool-cases (is_valid pkg)) [
  | inl v ↦ v
  | inr bad ↦ absurd (ground (arith, bad, e))
]

given_some : (o : Option String) → given o ≡ true → o ≡ some (get_or o "")
given_some none h = absurd (ground arith)
given_some (some s) h = refl

process_adds :
    (pkg : Package) (phase : WatchPhase) (s : Store)
    → (phase ≡ WatchPhase.added) ⊎ (phase ≡ WatchPhase.modified)
    → process_packages pkg phase s ≡ add pkg s
process_adds pkg phase s (inl e) = rw e refl
process_adds pkg phase s (inr e) = rw e refl

module _ (lower : Text → Text) (parse_path : String → Option String) where
  added-IsExclusive :
      (config : Config) (raw : Package) (s s' : Store)
      → IsExclusive s
      → validator lower parse_path config s raw ≡ ok tt
      → (given raw.deletion_timestamp ≡ false)
        ⊎ (get_pkg_name s (namespace_of raw) ≡ some (name_of raw))
      → add raw s ≡ ok s'
      → IsExclusive s'
  added-IsExclusive config raw s s' x h live e =
      let v = add-valid raw s s' e in
      let ns = namespace_of raw in
      let n = name_of raw in
      let p : raw.namespace ≡ some ns = given_some raw.namespace (ground arith) in
      let q : raw.name ≡ some n = given_some raw.name (ground arith) in
      let free = approved-IsFree lower parse_path config s raw h ns n p q live in
      let (s2, e2, c, held) = add-Consistent s raw ns n x.consistent p q v free in
      let same : s2 ≡ s' = ok_injective {E = Invalid} (sym e2 ∙ e) in
      let here : get_or raw.namespace unknown ≡ ns = ap (λ o. get_or o unknown) p in
      subst IsExclusive same (record {
        consistent = c;
        sso =
            IsUnshared-added sso_keys (get_package_by_namespace s) (get_package_by_namespace s2)
              s.sso_index raw ns x.consistent.sso held
              (subst (λ m. KeysAreFree s.sso_index m (sso_keys raw)) here
                (approved_sso lower parse_path config s raw h))
              x.sso;
        udp =
            IsUnshared-added udp_keys (get_package_by_namespace s) (get_package_by_namespace s2)
              s.udp_index raw ns x.consistent.udp held
              (subst (λ m. KeysAreFree s.udp_index m (udp_keys raw)) here
                (approved_udp lower parse_path config s raw h))
              x.udp;
      })

  deleted-IsExclusive :
      (pkg : Package) (ns : String) (s s' : Store)
      → IsExclusive s
      → get_package_by_namespace s ns ≡ some pkg
      → remove pkg s ≡ ok s'
      → IsExclusive s'
  deleted-IsExclusive pkg ns s s' x has e =
      let (s2, e2, c, held) =
        remove-Consistent s pkg ns x.consistent has (remove-valid pkg s s' e) in
      let same : s2 ≡ s' = ok_injective {E = Invalid} (sym e2 ∙ e) in
      subst IsExclusive same (record {
        consistent = c;
        sso =
            IsUnshared-removed sso_keys (get_package_by_namespace s) (get_package_by_namespace s2)
              ns held x.sso;
        udp =
            IsUnshared-removed udp_keys (get_package_by_namespace s) (get_package_by_namespace s2)
              ns held x.udp;
      })

  init-IsExclusive : IsExclusive init
  unfolding get_package_by_namespace
  init-IsExclusive = record {
    consistent = init-Consistent;
    sso = λ k m m' a b. absurd (ground arith);
    udp = λ k m m' a b. absurd (ground arith);
  }

  module _ (Reports : Watch) (approved : IsApproved lower parse_path Reports)
      (known : IsKnown Reports) (current : IsCurrent Reports) where
    kept-IsExclusive :
        (s s' : Store) (phase : WatchPhase) (pkg : Package)
        → (phase ≡ WatchPhase.added) ⊎ (phase ≡ WatchPhase.modified)
        → Reports s phase pkg
        → process_packages pkg phase s ≡ ok s'
        → IsExclusive s
        → IsExclusive s'
    kept-IsExclusive s s' phase pkg ph r e x =
        let (config, h) = approved s phase pkg r ph in
        let added = sym (process_adds pkg phase s ph) ∙ e in
        elim (Bool-cases (given pkg.deletion_timestamp)) [
          | inl going ↦
              added-IsExclusive config pkg s s' x h (inr (known s phase pkg r ph going)) added
          | inr stays ↦ added-IsExclusive config pkg s s' x h (inl stays) added
        ]

    process-IsExclusive :
        (s s' : Store) (phase : WatchPhase) (pkg : Package)
        → Reports s phase pkg
        → process_packages pkg phase s ≡ ok s'
        → IsExclusive s
        → IsExclusive s'
    process-IsExclusive s s' WatchPhase.added pkg r e x =
        kept-IsExclusive s s' WatchPhase.added pkg (inl refl) r e x
    process-IsExclusive s s' WatchPhase.modified pkg r e x =
        kept-IsExclusive s s' WatchPhase.modified pkg (inr refl) r e x
    process-IsExclusive s s' WatchPhase.deleted pkg r e x =
        let (ns, has) = current s pkg r in deleted-IsExclusive pkg ns s s' x has e

    -- Suppose of the watch that a package that it reports as added or modified was approved by the
    -- validator as the store stood, that one of these that is being deleted has the name of the
    -- package that the store has for its namespace, and that a deletion is reported with the
    -- package exactly as the store has it. Then every store that events lead to is in step with its
    -- packages, each namespace has one package at most, and no client id and no UDP port of a
    -- gateway is used by the packages of two namespaces.
    pub Reach-IsExclusive : {s : Store} → Reach Reports s → IsExclusive s
    Reach-IsExclusive start = init-IsExclusive
    Reach-IsExclusive (next {s} {s'} r phase pkg reported e) =
        process-IsExclusive s s' phase pkg reported e (Reach-IsExclusive r)
