-- ===== src/Policies/Istio/Users.antt =====
-- Which pods RestrictIstioUser, of pepr/policies/istio.ts, approves.
use uds_core.Prelude.{
  String, Bool, true, false, not, ◌&&◌, ◌||◌, Option, none, some, ok, if◌then◌else◌, List, [], ◌∷◌,
  ◌≡◌, ◌≢◌, ◌⊎◌, ◌↔◌, inl, inr, refl, arith, All, All-iff, any-eq-false, get_or, Bool-cases, given,
  truthy,
}
use uds_core.Crd.Exemption.{Policy}
use uds_core.Policies.Image.{Text}
use uds_core.Policies.Numbers.{number_is}
use uds_core.Policies.Pod.{
  Number, nat, neg, nan, Container, SecurityContext, empty_context, Request, approve, deny,
}
use uds_core.Policies.Common.{is_istio_proxy_container}
use uds_core.Policies.Handlers.{Env}
use uds_core.Policies.Handlers.Laws.{Approved, unless_exempt-eq-approve}
use uds_core.Policies.Istio.{
  is_istio_id, is_pod_using_istio_user_id, container_uses_istio_id,
  find_container_using_istio_user_id, deny_container, istio_user_validate,
}

abbrev pub IsNot1337 : Option Number → Type 0
IsNot1337 o = o ≢ some (nat 1337)

istio_id_iff : (o : Option Number) → (is_istio_id o ≡ false) ↔ IsNot1337 o
istio_id_iff none = ground arith
istio_id_iff (some (nat n)) = ground arith
istio_id_iff (some (neg n)) = ground arith
istio_id_iff (some nan) = ground arith

groups_iff : (n : Number) → (number_is 1337 n ≡ false) ↔ (n ≢ nat 1337)
groups_iff (nat n) = ground arith
groups_iff (neg n) = ground arith
groups_iff nan = ground arith

-- No id of the pod is Istio's.
abbrev pub PodAvoids : SecurityContext → Type 0
PodAvoids c =
    IsNot1337 c.run_as_user
    × IsNot1337 c.run_as_group
    × IsNot1337 c.fs_group
    × All (λ n. n ≢ nat 1337) c.supplemental_groups

-- The container is Istio's proxy, or neither of its ids is Istio's.
abbrev pub ContainerAvoids : Text → Container → Type 0
ContainerAvoids zarf c =
    (is_istio_proxy_container zarf c ≡ true)
    ⊎ (IsNot1337 (get_or c.security_context empty_context).run_as_user
        × IsNot1337 (get_or c.security_context empty_context).run_as_group)

pod_iff :
    (pod : Option SecurityContext)
    → (is_pod_using_istio_user_id pod ≡ false) ↔ PodAvoids (get_or pod empty_context)
unfolding is_pod_using_istio_user_id
pod_iff pod =
    let c = get_or pod empty_context in
    let (a, a') = istio_id_iff c.run_as_user in
    let (b, b') = istio_id_iff c.run_as_group in
    let (d, d') = istio_id_iff c.fs_group in
    let (e, e') = any-eq-false (number_is 1337) c.supplemental_groups in
    let (f, f') = All-iff groups_iff c.supplemental_groups in
    (
      λ h. (a (ground arith), b (ground arith), d (ground arith), f (e (ground arith))),
      λ (u, v, w, x). ground (arith, a' u, b' v, d' w, e' (f' x)),
    )

spared : (p u g : Bool) → ((not p && (u || g)) ≡ false) ↔ ((p ≡ true) ⊎ ((u ≡ false) × (g ≡ false)))
spared p u g = ground arith

container_iff :
    (zarf : Text) (c : Container)
    → (container_uses_istio_id zarf c ≡ false) ↔ ContainerAvoids zarf c
container_iff zarf c =
    let sc = get_or c.security_context empty_context in
    let (a, a') = istio_id_iff sc.run_as_user in
    let (b, b') = istio_id_iff sc.run_as_group in
    let (to, from) =
      spared (is_istio_proxy_container zarf c) (is_istio_id sc.run_as_user)
        (is_istio_id sc.run_as_group) in
    (
      λ h. elim (to h) [ inl p ↦ inl p | inr (u, g) ↦ inr (a u, b g) ],
      elim [ inl p ↦ from (inl p) | inr (u, g) ↦ from (inr (a' u, b' g)) ],
    )

-- The name that is found is falsy exactly when no container is at fault, since names are not
-- empty.
containers_iff :
    (zarf : Text) (cs : List Container)
    → All (λ c. truthy c.name ≡ true) cs
    → (given (find_container_using_istio_user_id zarf cs) ≡ false) ↔ All (ContainerAvoids zarf) cs
unfolding find_container_using_istio_user_id
containers_iff zarf [] n = (λ h. tt, λ h. refl)
containers_iff zarf (c ∷ cs) (n, ns) =
    let (to, from) = containers_iff zarf cs ns in
    let (f, g) = container_iff zarf c in
    elim (Bool-cases (container_uses_istio_id zarf c)) [
      | inl bad ↦
          rw bad (λ h. absurd (ground (arith, h, n)), λ (a, h). absurd (ground (arith, g a, bad)))
      | inr good ↦ rw good (λ h. (f good, to h), λ (a, h). from h)
    ]

user_answer :
    (b : Bool) (o : Option String) (Pod Containers : Type 0)
    → (b ≡ false) ↔ Pod
    → (given o ≡ false) ↔ Containers
    → ((if b
          then deny
              "Pods cannot use UID/GID 1337 (Istio proxy) unless they are trusted Istio components"
              [] []
          else deny_container o)
        ≡ approve)
      ↔ (Pod × Containers)
user_answer true o Pod Containers (a, a') (c, c') =
    (λ h. absurd (ground arith), λ (p, _). absurd (ground (arith, a' p)))
user_answer false o Pod Containers (a, a') (c, c') = elim (Bool-cases (given o)) [
  | inl at_fault ↦
      (λ h. absurd (ground (arith, h, at_fault)), λ (p, k). absurd (ground (arith, c' k, at_fault)))
  | inr fine ↦ (λ h. (a refl, c fine), λ _. ground (arith, fine))
]

-- Exempt pods aside, RestrictIstioUser approves exactly the pods none of whose pod-level ids is
-- 1337 and whose containers, other than Istio's proxies, do not run as user or group 1337. The
-- names of containers must not be empty, as Kubernetes demands.
pub istio_user_admission :
    (env : Env) (r : Request)
    → All (λ c. truthy c.name ≡ true) (env.sdk.containers r.spec)
    → (istio_user_validate env r ≡ ok approve)
      ↔ Approved env Policy.restrict_istio_user r.metadata (
          PodAvoids (get_or r.spec.security_context empty_context)
          × All (ContainerAvoids env.zarf) (env.sdk.containers r.spec))
unfolding istio_user_validate
istio_user_admission env r names =
    unless_exempt-eq-approve env Policy.restrict_istio_user r.metadata _ _ (
      user_answer _ _ _ _ (pod_iff r.spec.security_context)
        (containers_iff env.zarf (env.sdk.containers r.spec) names))
