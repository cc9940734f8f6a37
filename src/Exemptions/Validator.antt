-- ===== src/Exemptions/Validator.antt =====
-- pepr/operator/crd/validators/exempt-validator.ts: the admission of UDSExemption resources.
pub mod Laws
use Prim.Native.Char.{code}
use uds_core.Prelude.{
  ℕ, String, Bool, true, false, not, Option, none, some, List, [], ◌∷◌, ◌&&◌, nat_eq, opt_eq,
  if◌then◌else◌, Result, ok, err, ◌>>=◌, ◌>>◌, any, ite, filter, codes, is_some,
}
use uds_core.Crd.Exemption.{Kind, Policy, Policy-discrete, Matcher, ExemptionElement, Exemption}

-- The answers of `req.Deny`, with the arguments of their messages; a call of `includes` on the
-- missing list of an unknown kind is the exception of JavaScript.
pub data Refusal : Type 0 where
  invalid_namespace : Option String → Refusal
  invalid_kind : Option Kind → String → Policy → Refusal
  has_slashes : String → Refusal
  invalid_regex : String → Refusal
  type_error : Refusal

abbrev pub Verdict : Type 0
Verdict = Result (Unit {0}) Refusal

abbrev pub deny_if : Bool → Refusal → Verdict
deny_if true r = err r
deny_if false r = ok tt

abbrev pub slash : ℕ → Bool
slash c = nat_eq c b'/'

abbrev pub last_is : (ℕ → Bool) → List ℕ → Bool
last_is t [] = false
last_is t (c ∷ []) = t c
last_is t (c ∷ d ∷ cs) = last_is t (d ∷ cs)

abbrev pub head_is : (ℕ → Bool) → List ℕ → Bool
head_is t [] = false
head_is t (c ∷ cs) = t c

-- checkForSlashes
unfoldable pub check_for_slashes : String → Bool
check_for_slashes name = head_is slash (codes name) && last_is slash (codes name)

abbrev pub valid_ns : String
valid_ns = "uds-policy-exemptions"

-- Is the policy one of those that the map has for the kind?
unfoldable pub kind_allows : Kind → Policy → Bool
kind_allows Kind.pod Policy.disallow_node_port_services = false
kind_allows Kind.pod Policy.restrict_external_names = false
kind_allows Kind.pod _ = true
kind_allows Kind.service Policy.disallow_node_port_services = true
kind_allows Kind.service Policy.restrict_external_names = true
kind_allows Kind.service _ = false

-- `policies.includes(p)`, where the map has no list for a matcher without a kind.
abbrev allowed : Matcher → Option Kind → Policy → Verdict
allowed m none p = err type_error
allowed m (some k) p = deny_if (not (kind_allows k p)) (invalid_kind (some k) m.name p)

check_policies : Matcher → List Policy → Verdict
check_policies m [] = ok tt
check_policies m (p ∷ ps) = allowed m m.kind p >> check_policies m ps

check_kinds : List ExemptionElement → Verdict
check_kinds [] = ok tt
check_kinds (e ∷ es) = check_policies e.matcher e.policies >> check_kinds es

module _ (compile : String → Option (String → Bool)) where
  check_name : String → Verdict
  check_name name =
      deny_if (check_for_slashes name) (has_slashes name)
      >> deny_if (not (is_some (compile name))) (invalid_regex name)

  check_names : List ExemptionElement → Verdict
  check_names [] = ok tt
  check_names (e ∷ es) = check_name e.matcher.name >> check_names es

  -- `allow_all` is UDSConfig.allowAllNSExemptions.
  pub exempt_validator : Bool → Exemption → Verdict
  exempt_validator allow_all ex =
      deny_if (not allow_all && not (opt_eq ex.namespace valid_ns)) (invalid_namespace ex.namespace)
      >> check_kinds ex.exemptions
      >> check_names ex.exemptions
