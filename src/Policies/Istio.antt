-- ===== src/Policies/Istio.antt =====
-- pepr/policies/istio.ts: annotations and labels that override the mesh, and the ids of Istio's
-- proxy.
pub mod Laws
pub mod Users
use uds_core.Prelude.{
  ℕ, String, Bool, true, false, not, ◌&&◌, ◌||◌, Option, none, some, List, [], ◌∷◌, ◌++◌, ◌==◌,
  if◌then◌else◌, any, filter, map, includes, get_or, Result, concat, join, keys, Dict, codes, given,
  or_else, truthy, ◌≡◌,
}
use mathlib.Core.List.{Perm}
use uds_core.Crd.Exemption.{Policy}
use uds_core.Exemptions.Check.{Metadata, Thrown}
use uds_core.Policies.Image.{Text, text_eq, trim}
use uds_core.Policies.Numbers.{number_is, opt_number_is}
use uds_core.Policies.Pod.{
  Number, Container, SecurityContext, empty_context, Request, Answer, approve, deny,
}
use uds_core.Policies.Common.{is_istio_proxy_container}
use uds_core.Policies.Handlers.{Env, unless_exempt}

-- `xs.sort((a, b) => a.localeCompare(b))`, of which the code relies on the members alone.
pub record Locale : Type 0 where
  pub sort : List String → List String
  pub sort-perm : (xs : List String) → Perm (sort xs) xs

abbrev pub inject : String
inject = "sidecar.istio.io/inject"

abbrev pub blocked_annotations : List String
blocked_annotations =
    "sidecar.istio.io/bootstrapOverride" ∷ "sidecar.istio.io/discoveryAddress"
    ∷ "sidecar.istio.io/proxyImage" ∷ "proxy.istio.io/config" ∷ "sidecar.istio.io/userVolume"
    ∷ "sidecar.istio.io/userVolumeMount" ∷ []

abbrev pub blocked_traffic_annotations : List String
blocked_traffic_annotations =
    inject ∷ "traffic.sidecar.istio.io/excludeInboundPorts"
    ∷ "traffic.sidecar.istio.io/excludeInterfaces"
    ∷ "traffic.sidecar.istio.io/excludeOutboundIPRanges"
    ∷ "traffic.sidecar.istio.io/excludeOutboundPorts"
    ∷ "traffic.sidecar.istio.io/includeInboundPorts"
    ∷ "traffic.sidecar.istio.io/includeOutboundIPRanges"
    ∷ "traffic.sidecar.istio.io/includeOutboundPorts" ∷ "sidecar.istio.io/interceptionMode"
    ∷ "traffic.sidecar.istio.io/kubevirtInterfaces" ∷ "istio.io/redirect-virtual-interfaces" ∷ []

abbrev pub blocked_traffic_labels : List String
blocked_traffic_labels = inject ∷ []

abbrev pub ambient_blocked_annotations : List String
ambient_blocked_annotations = "ambient.istio.io/bypass-inbound-capture" ∷ []

-- `value.trim() === "true"`
abbrev pub says_true : String → Bool
says_true v = text_eq (trim (codes v)) (codes "true")

-- `pod.metadata?.namespace || "default"`
abbrev pub pod_namespace : Metadata → String
pod_namespace md = get_or (or_else md.namespace (some "default")) "default"

abbrev pub named : String → String × String → String
named what (key, value) = concat (what ∷ key ∷ [])

module _ (zarf : Text) where
  -- isIstioWaypointPod
  unfoldable pub is_waypoint_pod : List Container → Bool
  is_waypoint_pod =
      any (λ c. is_istio_proxy_container zarf c && any (λ arg. arg == "waypoint") c.args)

  -- Is the entry of the annotations, or of the labels, a violation?
  abbrev pub annotation_violates : Metadata → String × String → Bool
  annotation_violates md (key, value) =
      if key == inject && pod_namespace md == "istio-system" || key == inject && says_true value
      then false
      else includes blocked_traffic_annotations key

  abbrev pub label_violates : List Container → Metadata → String × String → Bool
  label_violates cs md (key, value) =
      if key == inject && pod_namespace md == "istio-system"
        || key == inject && says_true value
        || key == inject && is_waypoint_pod cs
      then false
      else includes blocked_traffic_labels key

module _ (locale : Locale) where
  unfoldable pub check_istio_sidecar_overrides : Metadata → List String
  check_istio_sidecar_overrides md =
      locale.sort (filter (includes blocked_annotations) (keys md.annotations))

  unfoldable pub check_istio_ambient_overrides : Metadata → List String
  check_istio_ambient_overrides md =
      locale.sort (filter (includes ambient_blocked_annotations) (keys md.annotations))

  unfoldable pub check_istio_traffic_interception_overrides :
      Text → List Container → Metadata → List String
  check_istio_traffic_interception_overrides zarf cs md = locale.sort (
      map (named "annotation ") (filter (annotation_violates zarf md) md.annotations)
      ++ map (named "label ") (filter (label_violates zarf cs md) md.labels))

abbrev pub is_istio_id : Option Number → Bool
is_istio_id = opt_number_is 1337

unfoldable pub is_pod_using_istio_user_id : Option SecurityContext → Bool
is_pod_using_istio_user_id pod =
    let c = get_or pod empty_context in
    is_istio_id c.run_as_user
    || is_istio_id c.run_as_group
    || is_istio_id c.fs_group
    || any (number_is 1337) c.supplemental_groups

abbrev pub container_uses_istio_id : Text → Container → Bool
container_uses_istio_id zarf c =
    not (is_istio_proxy_container zarf c)
    && (is_istio_id (get_or c.security_context empty_context).run_as_user
        || is_istio_id (get_or c.security_context empty_context).run_as_group)

unfoldable pub find_container_using_istio_user_id : Text → List Container → Option String
find_container_using_istio_user_id zarf [] = none
find_container_using_istio_user_id zarf (c ∷ cs) =
    let rest = find_container_using_istio_user_id zarf cs in
    if container_uses_istio_id zarf c then some c.name else rest

abbrev pub deny_listed : String → List String → Answer
deny_listed msg [] = approve
deny_listed msg (v ∷ vs) = deny (concat (msg ∷ join ", " (v ∷ vs) ∷ [])) [] []

abbrev pub deny_container : Option String → Answer
deny_container found =
    if given found
    then deny
        (concat (
          "Container '"
          ∷ get_or found ""
          ∷ "' cannot use UID/GID 1337 (Istio proxy) as it is not a trusted Istio component"
          ∷ []))
        [] []
    else approve

module _ (env : Env) where
  unfoldable pub sidecar_overrides_validate : Locale → Request → Result Answer Thrown
  sidecar_overrides_validate locale r =
      unless_exempt env Policy.restrict_istio_sidecar_overrides r.metadata (
        deny_listed
          "The following istio annotations can modify secure sidecar configuration and are not allowed: "
          (check_istio_sidecar_overrides locale r.metadata))

  unfoldable pub traffic_overrides_validate : Locale → Request → Result Answer Thrown
  traffic_overrides_validate locale r =
      unless_exempt env Policy.restrict_istio_traffic_overrides r.metadata (
        deny_listed
          "The following istio annotations or labels can modify secure traffic interception are not allowed: "
          (check_istio_traffic_interception_overrides locale env.zarf (env.sdk.containers r.spec)
            r.metadata))

  unfoldable pub ambient_overrides_validate : Locale → Request → Result Answer Thrown
  ambient_overrides_validate locale r =
      unless_exempt env Policy.restrict_istio_ambient_overrides r.metadata (
        deny_listed
          "The following istio ambient annotations that can modify secure mesh behavior are not allowed: "
          (check_istio_ambient_overrides locale r.metadata))

  unfoldable pub istio_user_validate : Request → Result Answer Thrown
  istio_user_validate r = unless_exempt env Policy.restrict_istio_user r.metadata (
      if is_pod_using_istio_user_id r.spec.security_context
      then deny
          "Pods cannot use UID/GID 1337 (Istio proxy) unless they are trusted Istio components" []
          []
      else deny_container (find_container_using_istio_user_id env.zarf (env.sdk.containers r.spec)))
