-- ===== src/Namespaces/Laws.antt =====
-- What the labels of a namespace say after a change of its state, and after the package has gone.
use Prim.Native.Char.{code}
use Prim.Native.String
use Prim.Native.String.append.{nil, cons}
use uds_core.Prelude.{
  ℕ, String, Bool, true, false, not, none, some, List, [], ◌∷◌, ◌++◌, ◌==◌, if◌then◌else◌, codes,
  any, keys, Dict, lookup, insert, delete, ◌≡◌, refl, arith, ap, sym, ◌∙◌, eq_iff, eq_refl,
  lookup-insert, lookup-delete, Bool-cases, inl, inr,
}
use uds_core.Crd.Package.{Package}
use uds_core.Packages.Store.{name_of}
use uds_core.Namespaces.{
  injection_label, ambient_label, istio_state_annotation, IstioState, state_value, read_state,
  is_sidecar, get_current_istio_state, get_istio_labels, Meta, target_state, pkg_prefix, pkg_key,
  enabled, has_prefix, is_pkg_key,
}

pub current-labels :
    (labels : Dict String) (target current : IstioState)
    → get_current_istio_state (get_istio_labels labels target current).0 ≡ target
unfolding get_current_istio_state get_istio_labels
current-labels labels IstioState.sidecar current = ground (
  arith,
  lookup-delete ambient_label injection_label (insert injection_label "enabled" labels),
  lookup-insert injection_label injection_label "enabled" labels,
)
current-labels labels IstioState.ambient current = ground (
  arith,
  lookup-delete injection_label injection_label (insert ambient_label "ambient" labels),
  lookup-delete injection_label ambient_label (insert ambient_label "ambient" labels),
  lookup-insert ambient_label ambient_label "ambient" labels,
)
current-labels labels IstioState.off current = ground (
  arith,
  lookup-delete ambient_label injection_label (delete injection_label labels),
  lookup-delete ambient_label ambient_label (delete injection_label labels),
  lookup-delete injection_label injection_label labels,
)

pub other-labels :
    (labels : Dict String) (target current : IstioState) (key : String)
    → (injection_label == key) ≡ false
    → (ambient_label == key) ≡ false
    → lookup key (get_istio_labels labels target current).0 ≡ lookup key labels
unfolding get_istio_labels
other-labels labels IstioState.sidecar current key i a = ground (
  arith,
  i,
  a,
  lookup-delete ambient_label key (insert injection_label "enabled" labels),
  lookup-insert injection_label key "enabled" labels,
)
other-labels labels IstioState.ambient current key i a = ground (
  arith,
  i,
  a,
  lookup-delete injection_label key (insert ambient_label "ambient" labels),
  lookup-insert ambient_label key "ambient" labels,
)
other-labels labels IstioState.off current key i a = ground (
  arith,
  i,
  a,
  lookup-delete ambient_label key (delete injection_label labels),
  lookup-delete injection_label key labels,
)

pub read_state-value : (s : IstioState) → read_state (some (state_value s)) ≡ s
read_state-value IstioState.sidecar = refl
read_state-value IstioState.ambient = refl
read_state-value IstioState.off = refl

module _ {V : Type 0} where
  pub delete-insert : (k : String) (v : V) (d : Dict V) → delete k (insert k v d) ≡ delete k d
  delete-insert k v [] = ground (arith, eq_refl k)
  delete-insert k v ((j, w) ∷ d) = ground (arith, eq_iff j k, delete-insert k v d)

  any-delete :
      (t : String → Bool) (k : String) (d : Dict V)
      → any t (keys d) ≡ false
      → any t (keys (delete k d)) ≡ false
  any-delete t k [] h = refl
  any-delete t k ((j, w) ∷ d) h = ground (arith, h, any-delete t k d)

  any-insert :
      (t : String → Bool) (k : String) (v : V) (d : Dict V)
      → t k ≡ false
      → any t (keys d) ≡ false
      → any t (keys (insert k v d)) ≡ false
  any-insert t k v [] e h = ground (arith, e)
  any-insert t k v ((j, w) ∷ d) e h = ground (arith, h, e, any-insert t k v d)

codes-append : (x y : String) → codes (String.◌++◌ x y) ≡ codes x ++ codes y
codes-append String.[] y = rw (nil y) refl
codes-append (String.◌∷◌ c x) y = rw (cons c x y) (ap (λ t. code c ∷ t) (codes-append x y))

has_prefix-append : (p cs : List ℕ) → has_prefix p (p ++ cs) ≡ true
has_prefix-append [] cs = refl
has_prefix-append (p ∷ ps) cs = ground (arith, has_prefix-append ps cs)

pub pkg_key-IsPkgKey : (pkg : Package) → is_pkg_key (pkg_key pkg) ≡ true
pkg_key-IsPkgKey pkg =
    rw (codes-append pkg_prefix (String.◌++◌ (name_of pkg) ""))
      (has_prefix-append (codes pkg_prefix) (codes (String.◌++◌ (name_of pkg) "")))

pub pkg_key-ne_state : (pkg : Package) → (pkg_key pkg == istio_state_annotation) ≡ false
pkg_key-ne_state pkg = elim (Bool-cases (pkg_key pkg == istio_state_annotation)) [
  | inr ne ↦ ne
  | inl e ↦ absurd (
      ground (
        arith,
        sym (ap is_pkg_key ((eq_iff (pkg_key pkg) istio_state_annotation).0 e))
            ∙ pkg_key-IsPkgKey pkg,
      ))
]

pub restart-labels :
    (labels : Dict String) (target current : IstioState)
    → (get_istio_labels labels target current).1
      ≡ (if is_sidecar target then not (is_sidecar current) else is_sidecar current)
unfolding get_istio_labels
restart-labels labels IstioState.sidecar current = refl
restart-labels labels IstioState.ambient current = refl
restart-labels labels IstioState.off current = refl

-- The annotations while the package is there.
abbrev pub marked : Package → Meta → Dict String
marked pkg ns =
    insert (pkg_key pkg) "true" (
      insert istio_state_annotation (state_value (get_current_istio_state ns.labels))
        ns.annotations)

abbrev pub labels_with : Package → Meta → Dict String
labels_with pkg ns =
    (get_istio_labels ns.labels (target_state pkg.mode) (get_current_istio_state ns.labels)).0

pub enabled-eq :
    (pkg : Package) (ns : Meta)
    → lookup istio_state_annotation ns.annotations ≡ none
    → (enabled pkg ns).0 ≡ record { labels = labels_with pkg ns; annotations = marked pkg ns }
enabled-eq pkg ns e = rw e refl

pub no_other_package :
    (pkg : Package) (ns : Meta)
    → any is_pkg_key (keys ns.annotations) ≡ false
    → any is_pkg_key (keys (delete (pkg_key pkg) (marked pkg ns))) ≡ false
no_other_package pkg ns h =
    let v = state_value (get_current_istio_state ns.labels) in
    let a = insert istio_state_annotation v ns.annotations in
    rw (delete-insert (pkg_key pkg) "true" a) (
      any-delete is_pkg_key (pkg_key pkg) a
        (any-insert is_pkg_key istio_state_annotation v ns.annotations refl h))

pub lookup-marked :
    (pkg : Package) (ns : Meta)
    → lookup istio_state_annotation (marked pkg ns)
      ≡ some (state_value (get_current_istio_state ns.labels))
lookup-marked pkg ns = ground (
  arith,
  pkg_key-ne_state pkg,
  lookup-insert (pkg_key pkg) istio_state_annotation "true" (
      insert istio_state_annotation (state_value (get_current_istio_state ns.labels))
        ns.annotations),
  lookup-insert istio_state_annotation istio_state_annotation
      (state_value (get_current_istio_state ns.labels)) ns.annotations,
)
