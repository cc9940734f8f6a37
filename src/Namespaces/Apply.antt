-- ===== src/Namespaces/Apply.antt =====
-- applyNamespaceUpdates of pepr/operator/controllers/istio/namespace.ts, and enableIstio and
-- cleanupNamespace up to the restart of pods. The API server, which keeps the owners of fields, and
-- `R.equals` are parameters.

pub mod Laws
pub mod Labels
pub mod Annotations
pub mod RoundTrip
pub mod Tests
use uds_core.Prelude.{
  String, Bool, true, false, not, ◌&&◌, ◌||◌, ◌==◌, Option, none, some, List, [], ◌∷◌, any, filter,
  codes, opt_eq, Dict, lookup, insert, Result, ok, err, if◌then◌else◌,
}
use uds_core.Crd.Package.{Package}
use uds_core.Packages.Store.{Invalid}
use uds_core.Cluster.{Call}
use uds_core.Namespaces.{
  injection_label, ambient_label, istio_state_annotation, is_pkg_key, has_prefix, Meta,
}

-- The fields that a manager claims: the keys of the objects of `fieldsV1`, none where one is absent.
pub record Fields : Type 0 where
  pub top : List String
  pub metadata : List String
  pub labels : List String
  pub annotations : List String

pub record Entry : Type 0 where
  pub manager : Option String
  pub operation : Option String
  pub fields : Fields

abbrev is_managed_label_field : String → Bool
is_managed_label_field k = (k == "f:istio-injection") || (k == "f:istio.io/dataplane-mode")

abbrev is_managed_annotation_field : String → Bool
is_managed_annotation_field k =
    (k == "f:uds.dev/original-istio-state") || has_prefix (codes "f:uds.dev/pkg-") (codes k)

unfoldable pub ns_entry_is_over_claimed : Entry → Bool
ns_entry_is_over_claimed entry =
    any (λ k. not (k == "f:metadata")) entry.fields.top
    || any (λ k. not (k == "f:labels") && not (k == "f:annotations")) entry.fields.metadata
    || any (λ k. not (is_managed_label_field k)) entry.fields.labels
    || any (λ k. not (is_managed_annotation_field k)) entry.fields.annotations

abbrev pub with_label : String → Option String → Dict String → Dict String
with_label k none result = result
with_label k (some v) result = insert k v result

unfoldable pub pick_managed_labels : Dict String → Dict String
pick_managed_labels labels =
    with_label ambient_label (lookup ambient_label labels)
      (with_label injection_label (lookup injection_label labels) [])

abbrev pub is_managed_annotation : String → Bool
is_managed_annotation k = (k == istio_state_annotation) || is_pkg_key k

unfoldable pub pick_managed_annotations : Dict String → Dict String
pick_managed_annotations annotations =
    filter (λ (e : String × String). is_managed_annotation e.0) annotations

abbrev pub patch_of : Meta → Meta
patch_of m = record {
  labels = pick_managed_labels m.labels;
  annotations = pick_managed_annotations m.annotations;
}

-- What a stored namespace shows; the server-side apply of labels and annotations with `force`; and
-- removePeprManagedFieldsEntry.
pub record Server (N : Type 0) (E : Type 0) : Type 0 where
  pub meta : N → Meta
  pub managed_fields : N → List Entry
  pub apply : Meta → Call N (Unit {0}) E
  pub release : Call N (Unit {0}) E

abbrev is_pepr_apply : Entry → Bool
is_pepr_apply e = opt_eq e.manager "pepr" && opt_eq e.operation "Apply"

-- `peprEntry != null && nsEntryIsOverClaimed(peprEntry)` of the first entry of Pepr's applies.
unfoldable pub over_claimed : List Entry → Bool
over_claimed [] = false
over_claimed (e ∷ es) =
    let rest = over_claimed es in if is_pepr_apply e then ns_entry_is_over_claimed e else rest

-- An invalid package, or the error of a call.
pub data Error (E : Type 0) : Type 0 where
  invalid : Invalid → Error E
  thrown : E → Error E

module _ {N : Type 0} {E : Type 0} (server : Server N E)
    (equals : Dict String → Dict String → Bool) where
  abbrev pub values_changed : Meta → Meta → Bool
  values_changed new old =
      not (equals (patch_of old).labels (patch_of new).labels)
      || not (equals (patch_of old).annotations (patch_of new).annotations)

  abbrev applied : Bool → N × Result (Unit {0}) E → N × Result Bool (Error E)
  applied changed (n, ok u) = (n, ok changed)
  applied changed (n, err e) = (n, err (Error.thrown e))

  abbrev released : Bool → Meta → N × Result (Unit {0}) E → N × Result Bool (Error E)
  released changed new (n, ok u) = applied changed (server.apply (patch_of new) n)
  released changed new (n, err e) = (n, err (Error.thrown e))

  unfoldable pub apply_namespace_updates : Meta → Meta → List Entry → Call N Bool (Error E)
  apply_namespace_updates new old fields n =
      let changed = values_changed new old in
      let cleaned = released changed new (server.release n) in
      if over_claimed fields
      then cleaned
      else if changed
      then applied changed (server.apply (patch_of new) n)
      else (n, ok false)

  -- What is left to do with the pods, once the updates are applied.
  abbrev and_restart : Bool → N × Result Bool (Error E) → N × Result Bool (Error E)
  and_restart restart (n, ok changed) = (n, ok restart)
  and_restart restart (n, err e) = (n, err e)

  abbrev updated : Result (Meta × Bool) Invalid → Call N Bool (Error E)
  updated (ok (new, restart)) n =
      and_restart restart (apply_namespace_updates new (server.meta n) (server.managed_fields n) n)
  updated (err e) n = (n, err (Error.invalid e))

  -- enableIstio with enable_istio, and cleanupNamespace with cleanup_namespace: the namespace is
  -- read, and the updates are applied. The result says whether its pods are to be restarted.
  unfoldable pub update_namespace :
      (Package → Meta → Result (Meta × Bool) Invalid) → Package → Call N Bool (Error E)
  update_namespace compute pkg n = updated (compute pkg (server.meta n)) n
