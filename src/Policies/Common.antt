-- ===== src/Policies/Common.antt =====
-- pepr/policies/common.ts: Istio's own containers, the containers that a validating handler looks
-- at, and the annotation that records a mutation.
use uds_core.Prelude.{
  ℕ, String, Bool, false, not, ◌&&◌, ◌||◌, Option, none, some, List, [], ◌∷◌, ◌++◌, ◌==◌, leb,
  if◌then◌else◌, any, filter, map, codes, given, get_or, is_some, includes, opt_eq, lookup, Result,
  ok, err, or_else, ◌≡◌, refl, ◌+◌, truthy,
}
use uds_core.Crd.Exemption.{Policy}
use uds_core.Exemptions.Check.{Thrown, invalid_json, policy_value}
use uds_core.Policies.Image.{Text, validate_istio_image}
use uds_core.Policies.Pod.{
  Container, Port, Request, Sdk, Json, Ctx, ctx, has_annotation, set_annotation, empty_context,
}

abbrev pub first_is : List String → String → Bool
first_is [] s = false
first_is (x ∷ xs) s = x == s

abbrev pub to_ctx : Container → Ctx
to_ctx c = ctx c.name (get_or c.security_context empty_context)

module _ (zarf : Text) where
  image_ok : Option String → Bool
  image_ok none = false
  image_ok (some s) = truthy s && validate_istio_image zarf (codes s)

  unfoldable pub is_istio_proxy_container : Container → Bool
  unfolding image_ok
  is_istio_proxy_container c =
      given c.image
      && (c.name == "istio-proxy"
          && any (λ (p : Port). opt_eq p.name "http-envoy-prom") c.ports
          && first_is c.args "proxy"
          && not (is_some c.command))
      && image_ok c.image

  unfoldable pub is_istio_init_container : Request → Container → Bool
  unfolding image_ok is_istio_proxy_container
  is_istio_init_container r c =
      has_annotation "sidecar.istio.io/status" r
      && any is_istio_proxy_container r.spec.init_containers
      && given c.image
      && (c.name == "istio-init"
          && first_is c.args "istio-iptables"
          && not (is_some c.command)
          && image_ok c.image)

  -- A container with a security context, unless it is left out as Istio's init container.
  abbrev pub looked_at : Request → Bool → Container → Bool
  looked_at r exclude_istio_init c =
      is_some c.security_context && (not exclude_istio_init || not (is_istio_init_container r c))

  unfoldable pub security_context_containers : Sdk → Request → Bool → List Ctx
  security_context_containers sdk r exclude_istio_init =
      map to_ctx (filter (looked_at r exclude_istio_init) (sdk.containers r.spec))

-- `policy.split(/(?=[A-Z])/).join("-").toLowerCase()`, over the code points.
abbrev is_upper : ℕ → Bool
is_upper c = leb b'A' c && leb c b'Z'

abbrev lower : ℕ → ℕ
lower c = if is_upper c then c + 32 else c

abbrev hyphenate : Text → Text
hyphenate [] = []
hyphenate (c ∷ cs) = if is_upper c then b'-' ∷ lower c ∷ hyphenate cs else lower c ∷ hyphenate cs

pub transform : Text → Text
transform [] = []
transform (c ∷ cs) = lower c ∷ hyphenate cs

-- Its value at each policy.
abbrev pub safe_policy_name : Policy → String
safe_policy_name Policy.disallow_host_namespaces = "disallow-host-namespaces"
safe_policy_name Policy.disallow_node_port_services = "disallow-node-port-services"
safe_policy_name Policy.disallow_privileged = "disallow-privileged"
safe_policy_name Policy.disallow_selinux_options = "disallow-s-e-linux-options"
safe_policy_name Policy.drop_all_capabilities = "drop-all-capabilities"
safe_policy_name Policy.require_non_root_user = "require-non-root-user"
safe_policy_name Policy.restrict_capabilities = "restrict-capabilities"
safe_policy_name Policy.restrict_external_names = "restrict-external-names"
safe_policy_name Policy.restrict_host_path_write = "restrict-host-path-write"
safe_policy_name Policy.restrict_host_ports = "restrict-host-ports"
safe_policy_name Policy.restrict_istio_ambient_overrides = "restrict-istio-ambient-overrides"
safe_policy_name Policy.restrict_istio_sidecar_overrides = "restrict-istio-sidecar-overrides"
safe_policy_name Policy.restrict_istio_traffic_overrides = "restrict-istio-traffic-overrides"
safe_policy_name Policy.restrict_istio_user = "restrict-istio-user"
safe_policy_name Policy.restrict_proc_mount = "restrict-proc-mount"
safe_policy_name Policy.restrict_selinux_type = "restrict-s-e-linux-type"
safe_policy_name Policy.restrict_seccomp = "restrict-seccomp"
safe_policy_name Policy.restrict_volume_types = "restrict-volume-types"

safe_policy_name-transform :
    (p : Policy) → codes (safe_policy_name p) ≡ transform (codes (policy_value p))
unfolding transform
safe_policy_name-transform Policy.restrict_volume_types = refl
safe_policy_name-transform _ = refl

abbrev pub mutated_key : String
mutated_key = "uds-core.pepr.dev/mutated"

abbrev pub add_name : String → List String → List String
add_name name arr = if includes arr name then arr else arr ++ name ∷ []

-- A text that is no list of names makes the handler throw.
abbrev pub annotate_with :
    Json → Policy → Request → String → Option (List String) → Result Request Thrown
annotate_with json p r text none = err (invalid_json text)
annotate_with json p r text (some arr) =
    ok (set_annotation mutated_key (json.stringify (add_name (safe_policy_name p) arr)) r)

-- `valStr || "[]"`
abbrev pub mutations : Request → String
mutations r = get_or (or_else (lookup mutated_key r.metadata.annotations) (some "[]")) "[]"

unfoldable pub annotate_mutation : Json → Policy → Request → Result Request Thrown
annotate_mutation json p r = annotate_with json p r (mutations r) (json.parse (mutations r))
