-- ===== src/Namespaces/Apply/Annotations.antt =====
-- The annotations of a namespace after a package has come, and after it has gone.
use uds_core.Prelude.{
  String, Bool, true, false, ◌==◌, none, some, [], ◌∷◌, any, keys, Dict, lookup, insert, delete,
  if◌then◌else◌, ◌≡◌, ◌∙◌, refl, sym, ap, arith, eq_iff, eq_refl, lookup-insert, lookup-delete,
  Bool-cases, inl, inr,
}
use uds_core.Crd.Package.{Package}
use uds_core.Namespaces.{
  istio_state_annotation, state_value, get_current_istio_state, is_pkg_key, Meta, pkg_key,
}
use uds_core.Namespaces.Laws.{marked, lookup-marked, pkg_key-IsPkgKey}
use uds_core.Namespaces.Apply.{Server, over_claimed, patch_of, is_managed_annotation}
use uds_core.Namespaces.Apply.Laws.{merged, IsServerSide, lookup-pick_annotations}

pub no_key :
    (t : String → Bool) (d : Dict String)
    → any t (keys d) ≡ false
    → (k : String) → t k ≡ true
    → lookup k d ≡ none
no_key t [] h k e = refl
no_key t ((j, v) ∷ d) h k e = elim (Bool-cases (j == k)) [
  | inl same ↦ absurd (ground (arith, ap t ((eq_iff j k).0 same), h, e))
  | inr other ↦ rw other (no_key t d (ground (arith, h)) k e)
]

pub none_found :
    (t : String → Bool) (d : Dict String)
    → ((k : String) → t k ≡ true → lookup k d ≡ none)
    → any t (keys d) ≡ false
none_found t [] f = refl
none_found t ((j, v) ∷ d) f = elim (Bool-cases (t j)) [
  | inl e ↦ absurd (ground (arith, eq_refl j, f j e))
  | inr e ↦ rw e (
      none_found t d (λ k h. elim (Bool-cases (j == k)) [
        | inl same ↦ absurd (ground (arith, ap t ((eq_iff j k).0 same), e, h))
        | inr other ↦ ground (arith, other, f k h)
      ]))
]

lookup-marked_key :
    (pkg : Package) (m : Meta) (k : String)
    → lookup k (marked pkg m) ≡ (
        if pkg_key pkg == k
        then some "true"
        else if istio_state_annotation == k
        then some (state_value (get_current_istio_state m.labels))
        else lookup k m.annotations)
lookup-marked_key pkg m k =
    let v = state_value (get_current_istio_state m.labels) in
    lookup-insert (pkg_key pkg) k "true" (insert istio_state_annotation v m.annotations)
    ∙ ap (λ o. if pkg_key pkg == k then some "true" else o)
        (lookup-insert istio_state_annotation k v m.annotations)

-- The annotations when a package has gone.
abbrev pub unmarked : Package → Dict String → Dict String
unmarked pkg d = delete istio_state_annotation (delete (pkg_key pkg) d)

pub lookup-unmarked_pkg :
    (pkg : Package) (d : Dict String) → lookup (pkg_key pkg) (unmarked pkg d) ≡ none
lookup-unmarked_pkg pkg d = ground (
  arith,
  eq_refl (pkg_key pkg),
  lookup-delete istio_state_annotation (pkg_key pkg) (delete (pkg_key pkg) d),
  lookup-delete (pkg_key pkg) (pkg_key pkg) d,
)

pub lookup-marked_pkg :
    (pkg : Package) (m : Meta) → lookup (pkg_key pkg) (marked pkg m) ≡ some "true"
lookup-marked_pkg pkg m =
    rw (lookup-marked_key pkg m (pkg_key pkg)) (rw (eq_refl (pkg_key pkg)) refl)

module _ {N : Type 0} {E : Type 0} (server : Server N E)
    (owns_label owns_annotation : N → String → Bool)
    (s : IsServerSide server owns_label owns_annotation) (pkg : Package) (n : N)
    (labels : Dict String) where
  abbrev now : Dict String
  now = (server.meta n).annotations

  abbrev new : Meta
  new = record { labels = labels; annotations = marked pkg (server.meta n) }

  abbrev pub next : N
  next = (server.apply (patch_of new) n).0

  abbrev later : Dict String
  later = (server.meta next).annotations

  lookup-managed :
      (k : String)
      → is_managed_annotation k ≡ true
      → lookup k later
        ≡ merged (lookup k (marked pkg (server.meta n))) (owns_annotation n k) (lookup k now)
  lookup-managed k e =
      s.annotation new n k
      ∙ ap (λ o. merged o (owns_annotation n k) (lookup k now))
          (lookup-pick_annotations (marked pkg (server.meta n)) k ∙ rw e refl)

  managed_pkg : (k : String) → is_pkg_key k ≡ true → is_managed_annotation k ≡ true
  managed_pkg k e = ground (arith, e)

  pub lookup-state :
      lookup istio_state_annotation later
      ≡ some (state_value (get_current_istio_state (server.meta n).labels))
  lookup-state =
      lookup-managed istio_state_annotation refl ∙ rw (lookup-marked pkg (server.meta n)) refl

  pub lookup-pkg : lookup (pkg_key pkg) later ≡ some "true"
  lookup-pkg =
      lookup-managed (pkg_key pkg) (managed_pkg (pkg_key pkg) (pkg_key-IsPkgKey pkg))
      ∙ rw (lookup-marked_key pkg (server.meta n) (pkg_key pkg)) (rw (eq_refl (pkg_key pkg)) refl)

  pub lookup-other_pkg :
      any is_pkg_key (keys now) ≡ false
      → (k : String) → is_pkg_key k ≡ true
      → (pkg_key pkg == k) ≡ false
      → lookup k later ≡ none
  lookup-other_pkg h k e ne =
      let state : (istio_state_annotation == k) ≡ false = not-state k e in
      let was = no_key is_pkg_key now h k e in
      lookup-managed k (managed_pkg k e)
      ∙ rw (lookup-marked_key pkg (server.meta n) k) (rw ne (rw state (rw was (merged_none _))))
    where
      not-state : (k : String) → is_pkg_key k ≡ true → (istio_state_annotation == k) ≡ false
      not-state k e = elim (Bool-cases (istio_state_annotation == k)) [
        | inr ne ↦ ne
        | inl same ↦
            absurd (ground (arith, ap is_pkg_key ((eq_iff istio_state_annotation k).0 same), e))
      ]

      merged_none : (b : Bool) → merged none b none ≡ none
      merged_none true = refl
      merged_none false = refl

  -- No package is left but this one.
  pub alone :
      any is_pkg_key (keys now) ≡ false → any is_pkg_key (keys (delete (pkg_key pkg) later)) ≡ false
  alone h = none_found is_pkg_key (delete (pkg_key pkg) later) (λ k e.
      lookup-delete (pkg_key pkg) k later ∙ elim (Bool-cases (pkg_key pkg == k)) [
        | inl same ↦ rw same refl
        | inr other ↦ rw other (lookup-other_pkg h k e other)
      ])

  -- An annotation that Pepr does not manage stays.
  kept :
      over_claimed (server.managed_fields n) ≡ false
      → (k : String) → is_managed_annotation k ≡ false
      → lookup k later ≡ lookup k now
  kept fine k free =
      s.annotation new n k
      ∙ rw (lookup-pick_annotations (marked pkg (server.meta n)) k)
          (rw free (rw (s.claimed_annotation n k fine free) refl))

  -- The state that is remembered can be taken back.
  owns_state :
      lookup istio_state_annotation now ≡ none → owns_annotation next istio_state_annotation ≡ true
  owns_state e =
      s.taken_annotation new n istio_state_annotation
        (state_value (get_current_istio_state (server.meta n).labels))
        (lookup-pick_annotations (marked pkg (server.meta n)) istio_state_annotation
          ∙ lookup-marked pkg (server.meta n))
        (rw e refl)

  abbrev ToOld : String → Type 0
  ToOld k =
      (lookup k (unmarked pkg later) ≡ none)
      × (merged none (owns_annotation next k) (lookup k later) ≡ lookup k now)

  state_back : lookup istio_state_annotation now ≡ none → ToOld istio_state_annotation
  state_back e = (
    lookup-delete istio_state_annotation istio_state_annotation (delete (pkg_key pkg) later),
    rw (owns_state e) (sym e),
  )

  pkg_back :
      any is_pkg_key (keys now) ≡ false
      → (k : String) → is_pkg_key k ≡ true
      → (pkg_key pkg == k) ≡ false
      → ToOld k
  pkg_back h k e ne =
      let gone = lookup-other_pkg h k e ne in
      (
        ground (
          arith,
          lookup-delete istio_state_annotation k (delete (pkg_key pkg) later),
          lookup-delete (pkg_key pkg) k later,
          gone,
        ),
        rw gone (rw (no_key is_pkg_key now h k e) (nothing (owns_annotation next k))),
      )
    where
      nothing : (b : Bool) → merged none b none ≡ none
      nothing true = refl
      nothing false = refl

  managed_back :
      lookup istio_state_annotation now ≡ none
      → any is_pkg_key (keys now) ≡ false
      → (k : String) → is_managed_annotation k ≡ true
      → (pkg_key pkg == k) ≡ false
      → ToOld k
  managed_back e h k managed ne = elim (Bool-cases (k == istio_state_annotation)) [
    | inl same ↦ rw ((eq_iff k istio_state_annotation).0 same) (state_back e)
    | inr other ↦ pkg_back h k (ground (arith, managed, other)) ne
  ]

  module _ (labels' : Dict String) where
    abbrev last_new : Meta
    last_new = record { labels = labels'; annotations = unmarked pkg later }

    abbrev pub last : N
    last = (server.apply (patch_of last_new) next).0

    -- The annotations of before, but for the package's.
    pub annotations-last :
        over_claimed (server.managed_fields n) ≡ false
        → lookup istio_state_annotation now ≡ none
        → any is_pkg_key (keys now) ≡ false
        → (k : String) → (pkg_key pkg == k) ≡ false
        → lookup k (server.meta last).annotations ≡ lookup k now
    annotations-last fine e h k ne =
        s.annotation last_new next k
        ∙ rw (lookup-pick_annotations (unmarked pkg later) k)
            (elim (Bool-cases (is_managed_annotation k)) [
              | inr free ↦
                  rw free (rw (s.claimed_annotation next k (s.entry new n) free) (kept fine k free))
              | inl managed ↦
                  let (gone, back) = managed_back e h k managed ne in rw managed (rw gone back)
            ])
