-- ===== src/Policies/Storage.antt =====
-- pepr/policies/storage.ts: volume types and hostPath mounts.
pub mod Laws
use uds_core.Prelude.{
  String, Bool, true, false, not, ◌&&◌, ◌||◌, Option, none, some, List, [], ◌∷◌, ◌++◌, ◌==◌,
  if◌then◌else◌, any, filter, includes, get_or, Result, concat,
}
use uds_core.Crd.Exemption.{Policy}
use uds_core.Exemptions.Check.{Thrown}
use uds_core.Policies.Pod.{Container, Mount, Volume, Request, Answer, approve, deny}
use uds_core.Policies.Handlers.{Env, unless_exempt}

-- `Object.keys(volume).find(key => key !== "name") || "unknown"`
abbrev pub volume_type : List String → String
volume_type [] = "unknown"
volume_type (k ∷ ks) =
    let rest = volume_type ks in if k == "name" then rest else if k == "" then "unknown" else k

abbrev pub allowed_volume_types : List String
allowed_volume_types =
    "configMap" ∷ "csi" ∷ "downwardAPI" ∷ "emptyDir" ∷ "ephemeral" ∷ "image"
    ∷ "persistentVolumeClaim" ∷ "projected" ∷ "secret" ∷ []

-- The first volume of a type that is not allowed, with the type; `none` is `[true, null]`.
unfoldable pub validate_volume_types : List Volume → Option (String × String)
validate_volume_types [] = none
validate_volume_types (v ∷ vs) =
    let rest = validate_volume_types vs in
    if not (includes allowed_volume_types (volume_type v.keys))
    then some (v.name, volume_type v.keys)
    else rest

abbrev pub all_mounts : List Container → List Mount
all_mounts [] = []
all_mounts (c ∷ cs) = c.volume_mounts ++ all_mounts cs

-- hasRWMount
abbrev pub has_rw_mount : List Container → String → Bool
has_rw_mount cs name =
    any (λ (m : Mount). not (get_or m.read_only false))
      (filter (λ (m : Mount). m.name == name) (all_mounts cs))

unfoldable pub validate_host_path_volumes : List Volume → List Container → Option String
validate_host_path_volumes [] cs = none
validate_host_path_volumes (v ∷ vs) cs =
    let rest = validate_host_path_volumes vs cs in
    if v.host_path then (if has_rw_mount cs v.name then some v.name else rest) else rest

abbrev volume_answer : Option (String × String) → Answer
volume_answer none = approve
volume_answer (some (name, type)) =
    deny (concat ("Volume " ∷ name ∷ " has a disallowed volume type of '" ∷ type ∷ "'." ∷ [])) [] []

abbrev host_path_answer : Option String → Answer
host_path_answer none = approve
host_path_answer (some name) =
    deny (concat ("hostPath volume '" ∷ name ∷ "' must be mounted as readOnly." ∷ [])) [] []

module _ (env : Env) where
  unfoldable pub volume_types_validate : Request → Result Answer Thrown
  volume_types_validate r =
      unless_exempt env Policy.restrict_volume_types r.metadata
        (volume_answer (validate_volume_types r.spec.volumes))

  unfoldable pub host_path_write_validate : Request → Result Answer Thrown
  host_path_write_validate r =
      unless_exempt env Policy.restrict_host_path_write r.metadata
        (host_path_answer (validate_host_path_volumes r.spec.volumes (env.sdk.containers r.spec)))
