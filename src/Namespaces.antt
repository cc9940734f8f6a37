-- ===== src/Namespaces.antt =====
-- pepr/operator/controllers/istio/namespace.ts: the labels and annotations by which a namespace
-- joins the mesh, up to the call that applies them. Logging is left out.
pub mod Laws
pub mod Pods
pub mod Apply
pub mod Tests
use uds_core.Prelude.{
  ℕ, String, Bool, true, false, not, ◌&&◌, ◌||◌, Option, none, some, List, [], ◌∷◌, ◌==◌, nat_eq,
  if◌then◌else◌, get_or, given, opt_eq, concat, codes, any, keys, Dict, lookup, insert, delete,
  Result, ok, err,
}
use uds_core.Crd.Package.{Mode, Package}
use uds_core.Packages.Store.{Invalid, missing_namespace_or_name, is_valid, name_of}

abbrev pub injection_label : String
injection_label = "istio-injection"

abbrev pub ambient_label : String
ambient_label = "istio.io/dataplane-mode"

abbrev pub istio_state_annotation : String
istio_state_annotation = "uds.dev/original-istio-state"

pub data IstioState : Type 0 where
  sidecar ambient off : IstioState

-- The values of the enumeration, and what a text counts as when it is compared with them.
abbrev pub state_value : IstioState → String
state_value IstioState.sidecar = "sidecar"
state_value IstioState.ambient = "ambient"
state_value IstioState.off = "none"

abbrev pub read_state : Option String → IstioState
read_state o =
    if opt_eq o "sidecar"
    then IstioState.sidecar
    else if opt_eq o "ambient"
    then IstioState.ambient
    else IstioState.off

abbrev pub is_sidecar : IstioState → Bool
is_sidecar IstioState.sidecar = true
is_sidecar s = false

unfoldable pub get_current_istio_state : Dict String → IstioState
get_current_istio_state labels =
    if opt_eq (lookup injection_label labels) "enabled"
    then IstioState.sidecar
    else if opt_eq (lookup ambient_label labels) "ambient"
    then IstioState.ambient
    else IstioState.off

-- The labels, and whether the pods have to be restarted.
unfoldable pub get_istio_labels : Dict String → IstioState → IstioState → Dict String × Bool
get_istio_labels labels IstioState.sidecar current =
    (delete ambient_label (insert injection_label "enabled" labels), not (is_sidecar current))
get_istio_labels labels IstioState.ambient current =
    (delete injection_label (insert ambient_label "ambient" labels), is_sidecar current)
get_istio_labels labels IstioState.off current =
    (delete ambient_label (delete injection_label labels), is_sidecar current)

-- The metadata of a namespace.
pub record Meta : Type 0 where
  pub labels : Dict String
  pub annotations : Dict String

-- `mode === Mode.Sidecar`
abbrev pub target_state : Option Mode → IstioState
target_state (some Mode.sidecar) = IstioState.sidecar
target_state (some Mode.ambient) = IstioState.ambient
target_state none = IstioState.ambient

abbrev pub pkg_prefix : String
pkg_prefix = "uds.dev/pkg-"

abbrev pub pkg_key : Package → String
pkg_key pkg = concat (pkg_prefix ∷ name_of pkg ∷ [])

abbrev pub mark_original : IstioState → Dict String → Dict String
mark_original current annotations =
    if given (lookup istio_state_annotation annotations)
    then annotations
    else insert istio_state_annotation (state_value current) annotations

abbrev pub enabled : Package → Meta → Meta × Bool
enabled pkg ns =
    let current = get_current_istio_state ns.labels in
    let (labels, restart) = get_istio_labels ns.labels (target_state pkg.mode) current in
    (
      record {
        labels = labels;
        annotations = insert (pkg_key pkg) "true" (mark_original current ns.annotations);
      },
      restart,
    )

unfoldable pub enable_istio : Package → Meta → Result (Meta × Bool) Invalid
enable_istio pkg ns = if is_valid pkg then ok (enabled pkg ns) else err missing_namespace_or_name

-- `key.startsWith("uds.dev/pkg-")`, over code points.
abbrev pub has_prefix : List ℕ → List ℕ → Bool
has_prefix [] cs = true
has_prefix (p ∷ ps) [] = false
has_prefix (p ∷ ps) (c ∷ cs) = nat_eq p c && has_prefix ps cs

abbrev pub is_pkg_key : String → Bool
is_pkg_key key = has_prefix (codes pkg_prefix) (codes key)

abbrev pub cleaned : Meta → Dict String → Meta × Bool
cleaned ns annotations =
    let original = read_state (lookup istio_state_annotation ns.annotations) in
    let current = get_current_istio_state ns.labels in
    let (labels, restart) = get_istio_labels ns.labels original current in
    if any is_pkg_key (keys annotations)
    then (record { labels = ns.labels; annotations = annotations }, false)
    else (
      record { labels = labels; annotations = delete istio_state_annotation annotations },
      restart,
    )

unfoldable pub cleanup_namespace : Package → Meta → Result (Meta × Bool) Invalid
cleanup_namespace pkg ns =
    if is_valid pkg
    then ok (cleaned ns (delete (pkg_key pkg) ns.annotations))
    else err missing_namespace_or_name
