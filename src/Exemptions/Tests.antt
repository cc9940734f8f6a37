-- ===== src/Exemptions/Tests.antt =====
-- Runs of the exemption store, of the policies' test and of the admission of exemptions.
use uds_core.Prelude.{
  String, Bool, true, false, Option, none, some, List, [], ◌∷◌, ◌==◌, ok, ◌≡◌, ◌⊎◌, ◌↔◌, inr, refl,
  All, Any,
}
use uds_core.Crd.Exemption.{Kind, Policy, Exemption}
use uds_core.Exemptions.Store.{init, run, get_by_policy, WatchPhase}
use uds_core.Exemptions.Store.Adding.{owned}
use uds_core.Exemptions.Store.Refinement.{in_force, run-in_force}
use uds_core.Exemptions.Store.Members.{Names, InForce}
use uds_core.Exemptions.Check.{Metadata, is_exempt}
use uds_core.Exemptions.Check.Soundness.{Covers, is_exempt_iff}
use uds_core.Exemptions.Validator.{valid_ns, exempt_validator, kind_allows, check_for_slashes}
use uds_core.Exemptions.Validator.Laws.{IsAdmissible, exempt_validator_iff}
use uds_core.Exemptions.Admission.{admitted-is_exempt}

-- Patterns that match themselves alone.
abbrev literal : String → Option (String → Bool)
literal p = some (λ n. n == p)

abbrev curl : String → Exemption
curl uid = record {
  name = some "curl";
  namespace = some "uds-policy-exemptions";
  uid = some uid;
  exemptions =
      record {
        matcher = record { kind = some Kind.pod; name = "curl"; namespace = "app" };
        policies = Policy.disallow_privileged ∷ Policy.drop_all_capabilities ∷ [];
      }
      ∷ [];
}

-- Two exemptions, of which the second goes again.
abbrev history : List (Exemption × WatchPhase)
history =
    (curl "1", WatchPhase.added)
    ∷ (curl "2", WatchPhase.added)
    ∷ (curl "1", WatchPhase.modified)
    ∷ (curl "2", WatchPhase.deleted)
    ∷ []

abbrev pod : Metadata
pod = record {
  name = some "curl";
  generate_name = none;
  namespace = some "app";
  annotations = [];
  labels = [];
}

valid : ((test : String → Bool) × (literal "curl" ≡ some test)) × Unit {0}
valid = ((λ n. n == "curl", refl), tt)

run-in_force_example :
    owned "1" (get_by_policy (run init history) Policy.disallow_privileged)
    ≡ (record { kind = some Kind.pod; name = "curl"; namespace = "app"; owner = "1" }) ∷ []
unfolding in_force uds_core.Crd.Exemption.Policy-discrete
run-in_force_example = run-in_force history "1" Policy.disallow_privileged

is_exempt_iff_example :
    ((is_exempt literal (run init history) pod Policy.disallow_privileged ≡ ok true)
      ⊎ (is_exempt literal (run init history) pod Policy.disallow_privileged ≡ ok false))
    × ((is_exempt literal (run init history) pod Policy.disallow_privileged ≡ ok true)
        ↔ InForce (Covers literal (some "curl") (some "app")) history Policy.disallow_privileged)
is_exempt_iff_example =
    is_exempt_iff literal history pod Policy.disallow_privileged
      (valid, (valid, (valid, (valid, tt))))

exempt_validator_iff_example : (exempt_validator literal false (curl "1") ≡ ok tt) ↔ (
    ((false ≡ true) ⊎ ((curl "1").namespace ≡ some valid_ns))
    × All (IsAdmissible literal) (curl "1").exemptions)
exempt_validator_iff_example = exempt_validator_iff literal false (curl "1")

curl_admitted : (uid : String) → exempt_validator literal false (curl uid) ≡ ok tt
unfolding kind_allows check_for_slashes
curl_admitted uid = (exempt_validator_iff literal false (curl uid)).1 (
  inr refl,
  (
    record {
      fits = ((Kind.pod, refl, refl), ((Kind.pod, refl, refl), tt));
      bare = refl;
      test = λ n. n == "curl";
      compiled = refl;
    },
    tt,
  ),
)

admitted-is_exempt_example :
    ((b : Bool) × (is_exempt literal (run init history) pod Policy.disallow_privileged ≡ ok b))
    × (is_exempt literal (run init history) pod Policy.disallow_privileged ≡ ok true
        → (o : String) × (ex : Exemption) × (in_force o none history ≡ some ex)
          × Any
              (Names (Covers literal (some "curl") (some "app")) Policy.disallow_privileged)
              ex.exemptions
          × All (IsAdmissible literal) ex.exemptions
          × ((false ≡ true) ⊎ (ex.namespace ≡ some valid_ns)))
admitted-is_exempt_example =
    admitted-is_exempt literal false history pod Policy.disallow_privileged
      (curl_admitted "1", (curl_admitted "2", (curl_admitted "1", (curl_admitted "2", tt))))
