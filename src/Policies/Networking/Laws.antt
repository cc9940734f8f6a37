-- ===== src/Policies/Networking/Laws.antt =====
-- Which pods and services the networking policies approve.
use uds_core.Prelude.{
  String, Bool, true, false, not, Option, none, some, ok, List, [], ◌∷◌, ◌++◌, ◌≡◌, ◌≢◌, ◌⊎◌, ◌↔◌,
  inl, inr, refl, arith, eq_iff, All, All-iff, any-eq-false, Bool-cases, opt_eq, ◌==◌, ap,
  some_injective,
}
use uds_core.Crd.Exemption.{Policy}
use uds_core.Policies.Pod.{Container, Port, PodSpec, Request, approve}
use uds_core.Policies.Handlers.{Env}
use uds_core.Policies.Handlers.Laws.{Approved, unless_exempt-eq-approve}
use uds_core.Policies.Networking.{
  check_no_host_namespaces, all_ports, uses_host_port, check_no_host_ports, ServiceRequest,
  check_not_external_name_service, check_not_node_port_service, answer_if, host_namespaces_validate,
  host_ports_validate, external_names_validate, node_port_validate,
}

-- No host port, or the port 0, which stands for none.
abbrev pub HasNoHostPort : Port → Type 0
HasNoHostPort p = (p.host_port ≡ none) ⊎ (p.host_port ≡ some 0)

uses_host_port_iff : (p : Port) → (uses_host_port p ≡ false) ↔ HasNoHostPort p
uses_host_port_iff p = ground arith

ports_iff :
    (P : Port → Type 0) (ports rest : List Port)
    → All P (ports ++ rest) ↔ (All P ports × All P rest)
ports_iff P [] rest = (λ h. (tt, h), λ h. h.1)
ports_iff P (p ∷ ports) rest =
    let (to, from) = ports_iff P ports rest in
    (λ (a, h). ((a, (to h).0), (to h).1), λ ((a, h), k). (a, from (h, k)))

all_ports_iff :
    (P : Port → Type 0) (cs : List Container) → All P (all_ports cs) ↔ All (λ c. All P c.ports) cs
all_ports_iff P [] = (λ h. tt, λ h. tt)
all_ports_iff P (c ∷ cs) =
    let (to, from) = all_ports_iff P cs in
    let (f, g) = ports_iff P c.ports (all_ports cs) in
    (λ h. ((f h).0, to (f h).1), λ (a, h). g (a, from h))

host_ports_iff :
    (cs : List Container)
    → (check_no_host_ports cs ≡ true) ↔ All (λ c. All HasNoHostPort c.ports) cs
unfolding check_no_host_ports
host_ports_iff cs =
    let (to, from) = any-eq-false uses_host_port (all_ports cs) in
    let (f, g) = All-iff uses_host_port_iff (all_ports cs) in
    let (u, v) = all_ports_iff HasNoHostPort cs in
    (λ h. u (f (to (ground arith))), λ h. ground (arith, from (g (v h))))

answer_if-eq-approve :
    (b : Bool) (msg : String) (Good : Type 0)
    → (b ≡ true) ↔ Good
    → (answer_if b msg ≡ approve) ↔ Good
answer_if-eq-approve true msg Good (to, from) = (λ h. to refl, λ h. refl)
answer_if-eq-approve false msg Good (to, from) =
    (λ h. absurd (ground arith), λ h. absurd (ground (arith, from h)))

abbrev pub SharesNothing : PodSpec → Type 0
SharesNothing s = (s.host_network ≢ some true) × (s.host_ipc ≢ some true) × (s.host_pid ≢ some true)

namespaces_iff : (s : PodSpec) → (check_no_host_namespaces s ≡ true) ↔ SharesNothing s
unfolding check_no_host_namespaces
namespaces_iff s = ground arith

type_ne : (o : Option String) (s : String) → (not (opt_eq o s) ≡ true) ↔ (o ≢ some s)
type_ne none s = ground arith
type_ne (some t) s =
    let (to, from) = eq_iff t s in
    (
      λ h e. ground (arith, from (some_injective e), h),
      λ h. elim (Bool-cases (t == s)) [ inl e ↦ absurd (h (ap some (to e))) | inr e ↦ rw e ],
    )

module _ (env : Env) where
  -- Exempt objects aside, a pod is approved exactly when it sets none of hostNetwork, hostIPC and
  -- hostPID to true, and when no port of its containers has a host port (other than 0); a service
  -- exactly when its type is not ExternalName, and when it is not NodePort.
  pub networking_admission :
      (r : Request) (s : ServiceRequest)
      → ((host_namespaces_validate env r ≡ ok approve)
          ↔ Approved env Policy.disallow_host_namespaces r.metadata (SharesNothing r.spec))
        × ((host_ports_validate env r ≡ ok approve)
            ↔ Approved env Policy.restrict_host_ports r.metadata
                (All (λ c. All HasNoHostPort c.ports) (env.sdk.containers r.spec)))
        × ((external_names_validate env s ≡ ok approve)
            ↔ Approved env Policy.restrict_external_names s.metadata (s.type ≢ some "ExternalName"))
        × ((node_port_validate env s ≡ ok approve)
            ↔ Approved env Policy.disallow_node_port_services s.metadata (s.type ≢ some "NodePort"))
  unfolding host_namespaces_validate host_ports_validate external_names_validate node_port_validate
      check_not_external_name_service check_not_node_port_service
  networking_admission r s = (
    unless_exempt-eq-approve env Policy.disallow_host_namespaces r.metadata _ _
        (answer_if-eq-approve _ _ _ (namespaces_iff r.spec)),
    unless_exempt-eq-approve env Policy.restrict_host_ports r.metadata _ _
        (answer_if-eq-approve _ _ _ (host_ports_iff (env.sdk.containers r.spec))),
    unless_exempt-eq-approve env Policy.restrict_external_names s.metadata _ _
        (answer_if-eq-approve _ _ _ (type_ne s.type "ExternalName")),
    unless_exempt-eq-approve env Policy.disallow_node_port_services s.metadata _ _
        (answer_if-eq-approve _ _ _ (type_ne s.type "NodePort")),
  )
