-- ===== src/Policies/NonRoot/Laws.antt =====
-- RequireNonRootUser: the user that a mutated pod runs as.
use uds_core.Prelude.{
  ℕ, String, Bool, true, false, not, Option, none, some, ok, List, [], ◌∷◌, ◌≡◌, ◌⊎◌, ◌↔◌, inl, inr,
  refl, arith, ap, ◌∙◌, sym, any, lookup, Dict, get_or, is_some, some_injective, Any,
}
use uds_core.Crd.Exemption.{Policy}
use uds_core.Exemptions.Check.{exemption_key}
use uds_core.Policies.Numbers.{number_is, opt_number_is}
use uds_core.Policies.Pod.{Number, nat, neg, nan, SecurityContext, Request, has_annotation}
use uds_core.Policies.Handlers.{Env, exempt}
use uds_core.Policies.Handlers.Laws.{mutate-not_exempt, annotate_mutation-eq-ok}
use uds_core.Policies.NonRoot.{
  from_label, default, non_root_context, pod_context, set_non_root_user_settings,
  is_root_security_context, non_root_mutate,
}

number_is-eq-true : (k : ℕ) (n : Number) → (number_is k n ≡ true) ↔ (n ≡ nat k)
number_is-eq-true k (nat m) = ground arith
number_is-eq-true k (neg m) = ground arith
number_is-eq-true k nan = ground arith

-- The user id that the manifest asks for: a label that is not empty wins over the context.
abbrev pub asked_user : Dict String → SecurityContext → Option Number
asked_user labels c = from_label (lookup "uds/user" labels) c.run_as_user

-- The pod asks for root: runAsNonRoot is false, or the user id is 0, or a supplemental group is 0.
abbrev pub AsksForRoot : Dict String → SecurityContext → Type 0
AsksForRoot labels c =
    (c.run_as_non_root ≡ some false)
    ⊎ (asked_user labels c ≡ some (nat 0))
    ⊎ Any (λ n. n ≡ nat 0) c.supplemental_groups

groups-root : (ns : List Number) → (any (number_is 0) ns ≡ true) ↔ Any (λ n. n ≡ nat 0) ns
groups-root [] = (λ h. absurd (ground arith), λ h. elim h [ ])
groups-root (n ∷ ns) =
    let (to, from) = groups-root ns in
    let (f, g) = number_is-eq-true 0 n in
    (λ h. ground (arith, to, f), λ h. elim h [ inl e ↦ rw e | inr k ↦ ground (arith, from k) ])

default_user :
    (o : Option Number) → (opt_number_is 0 (default (nat 1000) o) ≡ true) ↔ (o ≡ some (nat 0))
default_user none = ground arith
default_user (some n) =
    let (to, from) = number_is-eq-true 0 n in (λ h. ap some (to h), λ h. from (some_injective h))

default_non_root :
    (o : Option Bool) → (not (get_or (default true o) true) ≡ true) ↔ (o ≡ some false)
default_non_root none = ground arith
default_non_root (some b) = ground arith

default-is_some {ℓ} : {A : Type ℓ} (d : A) (o : Option A) → is_some (default d o) ≡ true
default-is_some d none = refl
default-is_some d (some a) = refl

root_iff :
    (labels : Dict String) (c : SecurityContext)
    → (is_root_security_context (non_root_context labels c) ≡ true) ↔ AsksForRoot labels c
unfolding non_root_context is_root_security_context
root_iff labels c =
    let (to, from) = groups-root c.supplemental_groups in
    let (f, g) = default_user (asked_user labels c) in
    let (u, v) = default_non_root c.run_as_non_root in
    (
      λ h. ground (arith, to, f, u),
      elim [
        | inl e ↦ rw (v e)
        | inr (inl e) ↦ ground (arith, g e)
        | inr (inr k) ↦ ground (arith, from k)
      ],
    )

module _ (env : Env) where
  -- The pod-level context that a mutated pod is given, if the pod is not exempt and did not bring
  -- the exemption annotation: user and group are set, and the validation counts it as root
  -- exactly when the manifest asks for root by runAsNonRoot false, by a user id of 0 (in the
  -- label uds/user, or in the context if there is no such label), or by a supplemental group 0.
  pub non_root_mutate-root :
      (r r' : Request)
      → exempt env r.metadata Policy.require_non_root_user ≡ ok false
      → has_annotation (exemption_key Policy.require_non_root_user) r ≡ false
      → non_root_mutate env r ≡ ok r'
      → (is_some (pod_context r').run_as_user ≡ true)
        × (is_some (pod_context r').run_as_group ≡ true)
        × ((is_root_security_context (pod_context r') ≡ true)
            ↔ AsksForRoot r.metadata.labels (pod_context r))
  unfolding non_root_mutate
  non_root_mutate-root r r' e a m =
      let before = sym (mutate-not_exempt env Policy.require_non_root_user _ r e) ∙ m in
      let (value, same) =
        annotate_mutation-eq-ok env.json Policy.require_non_root_user (set_non_root_user_settings r)
          r' (rw a at before) in
      let labels = r.metadata.labels in
      let c = pod_context r in
      rw same (
        unfold non_root_context in default-is_some (nat 1000) (asked_user labels c),
        unfold non_root_context in
            default-is_some (nat 1000) (from_label (lookup "uds/group" labels) c.run_as_group),
        root_iff labels c,
      )
