-- ===== src/Policies/Handlers.antt =====
-- What the handlers of pepr/policies share: the environment in which they run, and the two shapes
-- in which all of them use `markExemption` and `isExempt`.
pub mod Laws
use uds_core.Prelude.{
  String, Bool, true, false, Option, Result, ok, err, ◌>>=◌, if◌then◌else◌, List, [], ◌∷◌,
}
use uds_core.Crd.Exemption.{Policy}
use uds_core.Exemptions.Store.{Store}
use uds_core.Exemptions.Check.{Metadata, Thrown, is_exempt, mark_exemption, exemption_key}
use uds_core.Policies.Image.{Text}
use uds_core.Policies.Pod.{Request, Sdk, Json, Answer, approve, has_annotation, Ctx, deny}

-- Deny if there are violations.
abbrev pub deny_any : String → List (Option String) → List Ctx → Answer
deny_any msg authorized [] = approve
deny_any msg authorized (c ∷ cs) = deny msg authorized (c ∷ cs)

-- `new RegExp`, the exemption store, the SDK's `containers`, JSON, and ZARF_REGISTRY_ADDRESS.
pub record Env : Type 0 where
  pub compile : String → Option (String → Bool)
  pub store : Store
  pub sdk : Sdk
  pub json : Json
  pub zarf : Text

module _ (env : Env) where
  abbrev pub exempt : Metadata → Policy → Result Bool Thrown
  exempt md p = is_exempt env.compile env.store md p

  -- `.Mutate(markExemption(policy))`
  unfoldable pub mark : Policy → Request → Result Request Thrown
  unfolding mark_exemption
  mark p r =
      mark_exemption env.compile env.store p r.metadata >>= λ md. ok (record r { metadata = md })

  -- A mutating handler that returns early where the exemption annotation is set.
  unfoldable pub mutate_unless_marked :
      Policy → (Request → Result Request Thrown) → Request → Result Request Thrown
  unfolding mark
  mutate_unless_marked p body r =
      mark p r >>= λ r'. if has_annotation (exemption_key p) r' then ok r' else body r'

  -- A validating handler: approve what is exempt.
  unfoldable pub unless_exempt : Policy → Metadata → Answer → Result Answer Thrown
  unless_exempt p md answer = exempt md p >>= λ e. ok (if e then approve else answer)
