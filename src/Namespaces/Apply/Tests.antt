-- ===== src/Namespaces/Apply/Tests.antt =====
-- A namespace on an API server that keeps the owners of labels and annotations.
use uds_core.Prelude.{
  String, Bool, true, false, not, ◌&&◌, ◌||◌, ◌==◌, Option, none, some, [], ◌∷◌, ◌++◌, filter,
  opt_eq, Dict, lookup, ok, ◌≡◌, refl, arith, eq_iff, Bool-cases, inl, inr,
}
use uds_core.Crd.Package.{Package, bare_package}
use uds_core.Namespaces.{
  injection_label, ambient_label, get_current_istio_state, Meta, target_state, pkg_key,
  enable_istio, cleanup_namespace,
}
use uds_core.Namespaces.Apply.{
  Entry, Server, is_managed_annotation, ns_entry_is_over_claimed, over_claimed, patch_of,
  update_namespace,
}
use uds_core.Namespaces.Apply.Laws.{
  merged, IsServerSide, lookup-pick_labels, lookup-pick_annotations,
}
use uds_core.Namespaces.Apply.RoundTrip.{Tells, cleanup-enable}

record Stored : Type 0 where
  meta : Meta
  label_owner : String → Bool
  annotation_owner : String → Bool

abbrev overlay : Dict String → (String → Bool) → Dict String → Dict String
overlay p own d = p ++ filter (λ (e : String × String). not (own e.0)) d

lookup-unowned :
    (own : String → Bool) (d : Dict String) (k : String)
    → lookup k (overlay [] own d) ≡ merged none (own k) (lookup k d)
lookup-unowned own [] k = ground arith
lookup-unowned own ((j, v) ∷ d) k = elim (Bool-cases (j == k)) [
  | inl same ↦
      rw ((eq_iff j k).0 same) (ground (arith, same, (eq_iff k k).1 refl, lookup-unowned own d k))
  | inr other ↦ ground (arith, other, lookup-unowned own d k)
]

lookup-overlay :
    (p : Dict String) (own : String → Bool) (d : Dict String) (k : String)
    → lookup k (overlay p own d) ≡ merged (lookup k p) (own k) (lookup k d)
lookup-overlay [] own d k = lookup-unowned own d k
lookup-overlay ((j, v) ∷ p) own d k = ground (arith, lookup-overlay p own d k)

-- Whether a field belongs to Pepr alone after an apply.
abbrev owned : Option String → Option String → Bool → Bool
owned none old own = false
owned (some v) old own = own || not (opt_eq old v)

abbrev is_istio : String → Bool
is_istio k = (injection_label == k) || (ambient_label == k)

abbrev owns_label : Stored → String → Bool
owns_label n k = is_istio k && n.label_owner k

abbrev owns_annotation : Stored → String → Bool
owns_annotation n k = is_managed_annotation k && n.annotation_owner k

abbrev applied : Meta → Stored → Stored
applied p n = record {
  meta = record {
    labels = overlay p.labels (owns_label n) n.meta.labels;
    annotations = overlay p.annotations (owns_annotation n) n.meta.annotations;
  };
  label_owner = λ k. owned (lookup k p.labels) (lookup k n.meta.labels) (owns_label n k);
  annotation_owner =
      λ k. owned (lookup k p.annotations) (lookup k n.meta.annotations) (owns_annotation n k);
}

abbrev pepr_entry : Entry
pepr_entry = record {
  manager = some "pepr";
  operation = some "Apply";
  fields = record {
    top = "f:metadata" ∷ [];
    metadata = "f:labels" ∷ "f:annotations" ∷ [];
    labels = "f:istio-injection" ∷ [];
    annotations = "f:uds.dev/original-istio-state" ∷ "f:uds.dev/pkg-shop" ∷ [];
  };
}

abbrev server : Server Stored String
server = record {
  meta = λ n. n.meta;
  managed_fields = λ n. pepr_entry ∷ [];
  apply = λ p n. (applied p n, ok tt);
  release = λ n. (n, ok tt);
}

fine : over_claimed (pepr_entry ∷ []) ≡ false
unfolding over_claimed ns_entry_is_over_claimed
fine = refl

taken_label :
    (m : Meta) (n : Stored) (k v : String)
    → lookup k (patch_of m).labels ≡ some v
    → opt_eq (lookup k n.meta.labels) v ≡ false
    → owns_label (applied (patch_of m) n) k ≡ true
taken_label m n k v e old = elim (Bool-cases (injection_label == k)) [
  | inl i ↦ rw i (rw e (rw old (ground arith)))
  | inr i ↦ elim (Bool-cases (ambient_label == k)) [
    | inl a ↦ rw i (rw a (rw e (rw old (ground arith))))
    | inr a ↦ let gone = (lookup-pick_labels m.labels).2 k i a in absurd (ground (arith, e, gone))
  ]
]

taken_annotation :
    (m : Meta) (n : Stored) (k v : String)
    → lookup k (patch_of m).annotations ≡ some v
    → opt_eq (lookup k n.meta.annotations) v ≡ false
    → owns_annotation (applied (patch_of m) n) k ≡ true
taken_annotation m n k v e old = elim (Bool-cases (is_managed_annotation k)) [
  | inl managed ↦ rw managed (rw e (rw old (ground arith)))
  | inr free ↦
      let picked = lookup-pick_annotations m.annotations k in
      absurd (ground (arith, e, free, picked))
]

server-IsServerSide : IsServerSide server owns_label owns_annotation
server-IsServerSide = record {
  succeeds = λ m n. refl;
  label = λ m n k. lookup-overlay (patch_of m).labels (owns_label n) n.meta.labels k;
  annotation =
      λ m n k. lookup-overlay (patch_of m).annotations (owns_annotation n) n.meta.annotations k;
  taken_label = taken_label;
  taken_annotation = taken_annotation;
  claimed_label = λ n k h i a. rw i (rw a refl);
  claimed_annotation = λ n k h free. rw free refl;
  entry = λ m n. fine;
}

abbrev equals : Dict String → Dict String → Bool
equals [] [] = true
equals [] (f ∷ d) = false
equals (e ∷ c) [] = false
equals (e ∷ c) (f ∷ d) = let rest = equals c d in (e.0 == f.0) && (e.1 == f.1) && rest

equals-Tells : Tells equals
equals-Tells [] [] h k = refl
equals-Tells [] (f ∷ d) h k = absurd (ground arith)
equals-Tells (e ∷ c) [] h k = absurd (ground arith)
equals-Tells (e ∷ c) (f ∷ d) h k =
    let rest = equals-Tells c d (ground (arith, h)) k in
    let j = (eq_iff e.0 f.0).0 (ground (arith, h)) in
    let v = (eq_iff e.1 f.1).0 (ground (arith, h)) in rw j (rw v (rw rest refl))

abbrev shop : Package
shop = bare_package (some "shop") (some "shop-ns")

abbrev space : Stored
space = record {
  meta = record {
    labels = ("istio-injection", "enabled") ∷ ("team", "web") ∷ [];
    annotations = ("owner", "web") ∷ [];
  };
  label_owner = λ k. true;
  annotation_owner = λ k. false;
}

cleanup-enable_example :
    (n1 n2 : Stored) × (r : Bool) × (update_namespace server equals enable_istio shop space
      ≡ (n1, ok r))
    × (update_namespace server equals cleanup_namespace shop n1 ≡ (n2, ok r))
    × (get_current_istio_state n1.meta.labels ≡ target_state shop.mode)
    × (get_current_istio_state n2.meta.labels ≡ get_current_istio_state space.meta.labels)
    × ((key : String)
        → (injection_label == key) ≡ false
        → (ambient_label == key) ≡ false
        → lookup key n2.meta.labels ≡ lookup key space.meta.labels)
    × ((key : String)
        → (pkg_key shop == key) ≡ false
        → lookup key n2.meta.annotations ≡ lookup key space.meta.annotations)
cleanup-enable_example =
    cleanup-enable server equals equals-Tells owns_label owns_annotation server-IsServerSide shop
      space refl refl refl fine (λ e h. refl)
