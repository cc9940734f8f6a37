-- ===== src/Lib.antt =====
-- The parts of UDS Core's Pepr capabilities (src/pepr) that decide what may run in a cluster, and
-- the state that they decide by.
--
-- Exemptions. A watch feeds UDSExemption resources to the exemption store, which the policies
-- consult; a validating webhook admits the resources themselves.
--   Exemptions/Store.antt      src/pepr/operator/controllers/exemptions/exemption-store.ts and
--                              exemptions.ts. `Store` has the two module variables; get_by_policy,
--                              add_matcher, add and remove are the functions of that name, and
--                              process_exemptions is processExemptions. Its children hold the
--                              refinement to the exemptions in force.
--   Exemptions/Check.antt      src/pepr/policies/exemptions/index.ts: isExempt, markExemption.
--   Exemptions/Validator.antt  src/pepr/operator/crd/validators/exempt-validator.ts.
--   Exemptions/Admission.antt  the three together.
-- Policies. Each policy has a mutating handler, which at least marks an exempt resource, and a
-- validating handler, which approves an exempt resource and else looks at the request.
--   Policies/Pod.antt          the parts of a pod that are read or written.
--   Policies/Image.antt        src/pepr/policies/common.ts: parseImageRef, validateIstioImage.
--   Policies/Common.antt       src/pepr/policies/common.ts: the other helpers.
--   Policies/Handlers.antt     the two shapes of a handler, and what handlers run in (`Env`).
--   Policies/Privileged.antt, NonRoot.antt, Numbers.antt, Profiles.antt, Capabilities.antt and
--   Forged.antt                src/pepr/policies/security.ts.
--   Policies/Networking.antt, Storage.antt, Istio.antt  the files of that name.
-- Packages.
--   Packages/Index.antt, Packages/Store.antt
--                              src/pepr/operator/controllers/packages/package-store.ts: the map of
--                              packages and the two indexes that the package validator asks.
--   Packages/Watch.antt        src/pepr/operator/controllers/packages/packages.ts: processPackages.
--   Crd/Migrate.antt           src/pepr/operator/crd/migrate.ts.
--   Validator.antt             src/pepr/operator/crd/validators/package-validator.ts. Its children
--                              Exposes, Allows, Clients and Monitors are the four loops, each a
--                              list of tests (`Guards`) of which the first that holds denies, with
--                              the sets that the loop keeps; Handler is the whole validator, and
--                              Reachable composes it with the watch and the package store.
--   Network.antt               src/pepr/operator/controllers/network/generate.ts and generators/.
-- Reconcilers. A call of the cluster takes its state and gives the state after it, with a result or
-- an error (`Call`); what the cluster and the called parts do is a parameter.
--   Cluster/Retry.antt, Cluster/Orphans.antt
--                              src/pepr/operator/controllers/utils.ts: retryWithDelay, purgeOrphans.
--   Reconcilers.antt           src/pepr/operator/reconcilers/index.ts.
--   Reconcilers/Reconcile.antt, Reconcilers/Finalizer.antt
--                              src/pepr/operator/reconcilers/package-reconciler.ts:
--                              packageReconciler and packageFinalizer.
--   Authservice.antt, Authservice/Rollback.antt
--                              src/pepr/operator/controllers/keycloak/authservice/authservice.ts and
--                              config.ts: the chains of the configuration, and the configuration
--                              in memory with its rollback. The default settings that
--                              configurations share stand in a heap.
-- Egress. Each package asks for hosts outside of the cluster; what all packages ask for is kept in
-- memory, in one map for each mode of the mesh, and checked for conflicts.
--   Egress/Types.antt, Ports.antt, Resources.antt, Conflicts.antt, Maps.antt
--                              src/pepr/operator/controllers/istio/types.ts, egress-ports.ts and
--                              egress.ts.
--   Egress/Mutex.antt          src/pepr/operator/controllers/istio/egress.ts: the mutex of
--                              reconciliations, as steps of its callers and of the running passes.
--   Egress/Passes.antt         performEgressReconciliation of that file, over the calls of a mode.
-- Namespaces.antt            src/pepr/operator/controllers/istio/namespace.ts: enable_istio and
--                              cleanup_namespace are enableIstio and cleanupNamespace up to the
--                              call that applies the labels and annotations.
-- Namespaces/Apply.antt      applyNamespaceUpdates of that file, and both functions up to the restart
--                            of pods. Namespaces/Apply/Laws.antt has what is supposed of the
--                            server-side apply.
-- Namespaces/Pods.antt       killPods and restartPodsIfNeeded of that file: which pods are deleted,
--                            in which groups and which order.
-- Names.antt                 src/pepr/operator/controllers/utils.ts: sanitizeResourceName.
-- Names/Generated.antt       the names of virtual services, monitors and network policies, and
--                              getFqdn (virtual-service.ts, common.ts, generate.ts, domain-utils.ts).
-- Crd/ has the custom resources of src/pepr/operator/crd/generated, Prelude/ what the parts share.
--
-- Conventions. A JavaScript object or Map from strings is a dictionary with keys in the order of
-- their insertion (Prelude/Dicts.antt), or a function where the code never iterates over it. An
-- exception is the error of a `Result`; where state changes before the exception, the outcome
-- keeps that state. `x || y` and `x ?? y` are written out by `truthy`, `given` and `get_or`. Code
-- points stand for JavaScript's code units. Ports and ids are natural numbers, or `Number` where
-- labels and manifests may hold any number. Loops run over lists,
-- but for two, which have fuel: the digits of a number (Prelude/Text.antt), with one more than the
-- number, and the attempts of retryWithDelay, with one more than the attempts; a theorem says that
-- this is enough.
--
-- Parameters: the regular expression engine, JSON, `toLowerCase`, `localeCompare`, the parser of
-- URLs, the sorts of authservice's chains and of pods by name, the list of containers of Pepr's
-- SDK, the address of the Zarf registry, the calls of the cluster, `R.equals`, the peers that
-- kubeAPI.ts and kubeNodes.ts keep, and the functions that the reconciler, the finalizer and the
-- egress reconciliation call. Of the SDK it is assumed that its list shows an update of the
-- containers, of the sorts that they permute the list, of `R.equals` that it tells different values
-- apart, of the API server what it documents of a server-side apply, of the watch that it reports
-- what the validator has approved and the store holds, of the cluster that a patch of a status sets
-- the fields that it gives.
--
-- Not modelled: logging; the texts of refusals beyond their arguments; input and output; the calls
-- of Keycloak; what a mode of the egress reconciliation applies and purges; reconcilePackageFlow;
-- the debounce of authservice's writes; the default network policies, the authorization policies
-- and the generated Istio, gateway and monitoring resources. The update of the status in
-- handleFailure, which is not awaited, is taken to be done at once.
pub mod Prelude
pub mod Crd
pub mod Exemptions
pub mod Policies
pub mod Packages
pub mod Egress
pub mod Authservice
pub mod Cluster
pub mod Names
pub mod Namespaces
pub mod Network
pub mod Reconcilers
pub mod Validator
