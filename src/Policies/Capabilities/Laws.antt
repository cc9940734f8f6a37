-- ===== src/Policies/Capabilities/Laws.antt =====
-- DropAllCapabilities and RestrictCapabilities.
use uds_core.Prelude.{
  String, true, false, some, ok, List, [], ◌∷◌, all, includes, ◌≡◌, ◌↔◌, inl, inr, refl, arith, All,
  eq_iff, Bool-cases, all-eq-true, All-iff,
}
use uds_core.Crd.Exemption.{Policy}
use uds_core.Policies.Pod.{Request, Ctx, ctx_of, approve}
use uds_core.Policies.Common.{security_context_containers}
use uds_core.Policies.Handlers.{Env}
use uds_core.Policies.Handlers.Laws.{deny_any-eq-approve, Approved, unless_exempt-eq-approve}
use uds_core.Policies.Privileged.{added}
use uds_core.Policies.Capabilities.{
  validate_container_capabilities, allowed_capabilities, capabilities_validate,
}

abbrev pub AddsOnly : Ctx → Type 0
AddsOnly c = All (λ cap. cap ≡ "NET_BIND_SERVICE") (added (ctx_of c))

includes-allowed :
    (cap : String) → (includes allowed_capabilities cap ≡ true) ↔ (cap ≡ "NET_BIND_SERVICE")
includes-allowed cap = ground (arith, eq_iff "NET_BIND_SERVICE" cap)

empty-all :
    (l : List String) → all (λ a. false) l ≡ true → all (includes allowed_capabilities) l ≡ true
empty-all [] h = refl
empty-all (x ∷ xs) h = cc

capabilities-found :
    (cs : List Ctx)
    → (validate_container_capabilities cs allowed_capabilities ≡ []) ↔ All AddsOnly cs
unfolding validate_container_capabilities
capabilities-found [] = (λ h. tt, λ h. refl)
capabilities-found (c ∷ cs) =
    let (to, from) = capabilities-found cs in
    let l = added (ctx_of c) in
    let (f, g) = all-eq-true (includes allowed_capabilities) l in
    let (p, q) = All-iff includes-allowed l in
    (
      λ h. elim (Bool-cases (all (includes allowed_capabilities) l)) [
        | inl good ↦ (p (f good), to (ground (arith, h, good)))
        | inr bad ↦ absurd (ground (arith, h, bad, empty-all l))
      ],
      λ (a, k). ground (arith, g (q a), from k),
    )

module _ (env : Env) where
  -- RestrictCapabilities approves exactly the pods that are exempt, and those whose containers,
  -- Istio's init container aside, add no capability but NET_BIND_SERVICE.
  pub capabilities_validate_iff :
      (r : Request)
      → (capabilities_validate env r ≡ ok approve)
        ↔ Approved env Policy.restrict_capabilities r.metadata
            (All AddsOnly (security_context_containers env.zarf env.sdk r true))
  unfolding capabilities_validate
  capabilities_validate_iff r =
      let cs = security_context_containers env.zarf env.sdk r true in
      let (to, from) = capabilities-found cs in
      let (f, g) =
        deny_any-eq-approve
          "Unauthorized container capabilities in securityContext.capabilities.add"
          (some "NET_BIND_SERVICE" ∷ [])
          (validate_container_capabilities cs allowed_capabilities) in
      unless_exempt-eq-approve env Policy.restrict_capabilities r.metadata _ (All AddsOnly cs)
        (λ h. to (f h), λ h. g (from h))
