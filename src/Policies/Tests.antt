-- ===== src/Policies/Tests.antt =====
-- Runs of the policies on small pods.
use uds_core.Prelude.{
  true, false, none, some, [], ◌∷◌, ◌==◌, ok, ◌≡◌, ◌≢◌, ◌↔◌, refl, All, map, includes, is_some, ◌∙◌,
}
use mathlib.Core.List.Perm
use uds_core.Crd.Exemption.{Policy}
use uds_core.Exemptions.Store.{init}
use uds_core.Exemptions.Check.{Metadata, exemption_key}
use uds_core.Exemptions.Check.Soundness.{is_exempt-init}
use uds_core.Policies.Pod.{
  empty_context, Container, PodSpec, Request, approve, set_annotation, ctx_of,
}
use uds_core.Policies.Common.{security_context_containers, mutated_key, annotate_mutation}
use uds_core.Policies.Handlers.{Env, exempt}
use uds_core.Policies.Handlers.Laws.{Approved, mutate-not_exempt}
use uds_core.Policies.Privileged.{set_escalation, privileged_mutate, privileged_validate}
use uds_core.Policies.Privileged.Laws.{IsBenign, privileged_admission}
use uds_core.Policies.NonRoot.{
  non_root_mutate, pod_context, is_root_security_context, set_non_root_user_settings,
  non_root_validate,
}
use uds_core.Policies.NonRoot.Laws.{AsksForRoot, non_root_mutate-root}
use uds_core.Policies.Capabilities.{drop_all_mutate, drop_all_validate, capabilities_validate}
use uds_core.Policies.Capabilities.Laws.{AddsOnly, capabilities_validate_iff}
use uds_core.Policies.Profiles.{
  proc_mount_validate, seccomp_validate, selinux_options_validate, selinux_type_validate,
  all_contexts,
}
use uds_core.Policies.Profiles.Laws.{
  GoodProc, GoodSeccomp, GoodOptions, GoodType, Everywhere, profiles_admission,
}
use uds_core.Policies.Networking.{
  ServiceRequest, host_namespaces_validate, host_ports_validate, external_names_validate,
  node_port_validate,
}
use uds_core.Policies.Storage.{volume_types_validate, host_path_write_validate}
use uds_core.Policies.Networking.Laws.{SharesNothing, HasNoHostPort, networking_admission}
use uds_core.Policies.Storage.Laws.{HasAllowedType, IsReadOnly, storage_admission}
use uds_core.Policies.Istio.{
  Locale, blocked_annotations, ambient_blocked_annotations, sidecar_overrides_validate,
  traffic_overrides_validate, ambient_overrides_validate, istio_user_validate,
}
use uds_core.Policies.Istio.Laws.{LeavesTraffic, LabelLeavesTraffic, istio_overrides_admission}
use uds_core.Policies.Istio.Users.{PodAvoids, ContainerAvoids, istio_user_admission}
use uds_core.Policies.Forged.{forged_annotations-approved}

abbrev env : Env
env = record {
  compile = λ p. some (λ n. n == p);
  store = init;
  sdk = record {
    containers = λ s. s.containers;
    update = λ f s. record s { containers = map f s.containers };
    containers-update = λ f s. refl;
  };
  json = record { parse = λ s. some []; stringify = λ xs. "[]" };
  zarf = [];
}

abbrev app : Container
app = record {
  name = "app";
  image = some "nginx:1.27";
  args = [];
  command = none;
  ports = record { name = some "http"; host_port = none } ∷ [];
  volume_mounts = record { name = "data"; read_only = some true } ∷ [];
  security_context = some (record empty_context {
    capabilities = some (record { add = some ("NET_BIND_SERVICE" ∷ []); drop = none });
  });
}

abbrev metadata : Metadata
metadata = record {
  name = some "app";
  generate_name = none;
  namespace = some "shop";
  annotations = ("sidecar.istio.io/inject", "true") ∷ [];
  labels = ("uds/user", "65532") ∷ [];
}

abbrev spec : PodSpec
spec = record {
  containers = app ∷ [];
  init_containers = [];
  ephemeral_containers = [];
  security_context = none;
  host_network = none;
  host_ipc = none;
  host_pid = some false;
  volumes = record { name = "data"; keys = "name" ∷ "hostPath" ∷ []; host_path = true } ∷ [];
}

abbrev pod : Request
pod = record { metadata = metadata; spec = spec }

not_exempt : (p : Policy) (md : Metadata) → exempt env md p ≡ ok false
not_exempt p md = is_exempt-init env.compile md p

-- The pod after `f` on its containers, with the mutation on record.
abbrev mutated : (Container → Container) → Request
mutated f =
    set_annotation mutated_key "[]"
      (record pod { spec = record spec { containers = map f spec.containers } })

privileged_mutated : privileged_mutate env pod ≡ ok (mutated set_escalation)
unfolding privileged_mutate annotate_mutation
privileged_mutated =
    mutate-not_exempt env Policy.disallow_privileged _ pod
      (not_exempt Policy.disallow_privileged metadata)
    ∙ refl

privileged_admission_example :
    (privileged_validate env (mutated set_escalation) ≡ ok approve) ↔ All IsBenign (app ∷ [])
privileged_admission_example =
    privileged_admission env pod (mutated set_escalation)
      (not_exempt Policy.disallow_privileged metadata) refl privileged_mutated

abbrev non_root_pod : Request
non_root_pod = set_annotation mutated_key "[]" (set_non_root_user_settings pod)

non_root_mutated : non_root_mutate env pod ≡ ok non_root_pod
unfolding non_root_mutate annotate_mutation
non_root_mutated =
    mutate-not_exempt env Policy.require_non_root_user _ pod
      (not_exempt Policy.require_non_root_user metadata)
    ∙ refl

non_root_mutate-root_example :
    (is_some (pod_context non_root_pod).run_as_user ≡ true)
    × (is_some (pod_context non_root_pod).run_as_group ≡ true)
    × ((is_root_security_context (pod_context non_root_pod) ≡ true)
        ↔ AsksForRoot metadata.labels (pod_context pod))
non_root_mutate-root_example =
    non_root_mutate-root env pod non_root_pod (not_exempt Policy.require_non_root_user metadata)
      refl non_root_mutated

capabilities_validate_iff_example :
    (capabilities_validate env pod ≡ ok approve)
    ↔ Approved env Policy.restrict_capabilities metadata
        (All AddsOnly (security_context_containers env.zarf env.sdk pod true))
capabilities_validate_iff_example = capabilities_validate_iff env pod

profiles_admission_example :
    ((proc_mount_validate env pod ≡ ok approve)
      ↔ Approved env Policy.restrict_proc_mount metadata
          (All (λ c. GoodProc (ctx_of c)) (all_contexts env pod)))
    × ((seccomp_validate env pod ≡ ok approve)
        ↔ Approved env Policy.restrict_seccomp metadata (Everywhere env GoodSeccomp pod))
    × ((selinux_options_validate env pod ≡ ok approve)
        ↔ Approved env Policy.disallow_selinux_options metadata (Everywhere env GoodOptions pod))
    × ((selinux_type_validate env pod ≡ ok approve)
        ↔ Approved env Policy.restrict_selinux_type metadata (Everywhere env GoodType pod))
profiles_admission_example = profiles_admission env pod

abbrev service : ServiceRequest
service = record { metadata = metadata; type = some "ClusterIP" }

networking_admission_example :
    ((host_namespaces_validate env pod ≡ ok approve)
      ↔ Approved env Policy.disallow_host_namespaces metadata (SharesNothing spec))
    × ((host_ports_validate env pod ≡ ok approve)
        ↔ Approved env Policy.restrict_host_ports metadata
            (All (λ c. All HasNoHostPort c.ports) (app ∷ [])))
    × ((external_names_validate env service ≡ ok approve)
        ↔ Approved env Policy.restrict_external_names metadata (service.type ≢ some "ExternalName"))
    × ((node_port_validate env service ≡ ok approve)
        ↔ Approved env Policy.disallow_node_port_services metadata (service.type ≢ some "NodePort"))
networking_admission_example = networking_admission env pod service

storage_admission_example :
    ((volume_types_validate env pod ≡ ok approve)
      ↔ Approved env Policy.restrict_volume_types metadata (All HasAllowedType spec.volumes))
    × ((host_path_write_validate env pod ≡ ok approve)
        ↔ Approved env Policy.restrict_host_path_write metadata
            (All (IsReadOnly (app ∷ [])) spec.volumes))
storage_admission_example = storage_admission env pod

-- A sort that leaves the list as it is.
abbrev locale : Locale
locale = record { sort = λ xs. xs; sort-perm = λ xs. Perm.refl xs }

istio_overrides_admission_example :
    ((sidecar_overrides_validate env locale pod ≡ ok approve)
      ↔ Approved env Policy.restrict_istio_sidecar_overrides metadata
          (All (λ e. includes blocked_annotations e.0 ≡ false) metadata.annotations))
    × ((ambient_overrides_validate env locale pod ≡ ok approve)
        ↔ Approved env Policy.restrict_istio_ambient_overrides metadata
            (All (λ e. includes ambient_blocked_annotations e.0 ≡ false) metadata.annotations))
    × ((traffic_overrides_validate env locale pod ≡ ok approve)
        ↔ Approved env Policy.restrict_istio_traffic_overrides metadata (
            All (LeavesTraffic metadata) metadata.annotations
            × All (LabelLeavesTraffic [] (app ∷ []) metadata) metadata.labels))
istio_overrides_admission_example = istio_overrides_admission env locale pod

istio_user_admission_example :
    (istio_user_validate env pod ≡ ok approve)
    ↔ Approved env Policy.restrict_istio_user metadata
        (PodAvoids empty_context × All (ContainerAvoids []) (app ∷ []))
istio_user_admission_example = istio_user_admission env pod (refl, tt)

-- A pod without security contexts that brings the three exemption annotations.
abbrev forged : Request
forged = record {
  metadata = record metadata {
    annotations =
        (exemption_key Policy.disallow_privileged, "exempted")
        ∷ (exemption_key Policy.drop_all_capabilities, "exempted")
        ∷ (exemption_key Policy.require_non_root_user, "exempted")
        ∷ [];
  };
  spec = record spec { containers = record app { security_context = none } ∷ [] };
}

forged_annotations-approved_example :
    (privileged_mutate env forged ≡ ok forged)
    × (privileged_validate env forged ≡ ok approve)
    × (drop_all_mutate env forged ≡ ok forged)
    × (drop_all_validate env forged ≡ ok approve)
    × (non_root_mutate env forged ≡ ok forged)
    × (non_root_validate env forged ≡ ok approve)
forged_annotations-approved_example =
    forged_annotations-approved env forged
      (not_exempt Policy.disallow_privileged forged.metadata, refl)
      (not_exempt Policy.drop_all_capabilities forged.metadata, refl)
      (not_exempt Policy.require_non_root_user forged.metadata, refl) refl (refl, tt)
