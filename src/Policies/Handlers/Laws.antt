-- ===== src/Policies/Handlers/Laws.antt =====
-- The shapes of handlers in which pepr/policies uses the exemptions.
use uds_core.Prelude.{
  String, true, false, Option, none, some, Result, ok, err, if◌then◌else◌, List, [], ◌∷◌, ◌≡◌, refl,
  arith, ap, ◌∙◌, ◌↔◌, ◌⊎◌, inl, inr, insert, lookup-insert, eq_refl, Result-cases, Bool-cases,
  ok_injective,
}
use uds_core.Crd.Exemption.{Policy}
use uds_core.Exemptions.Check.{Metadata, Thrown, exemption_key}
use uds_core.Exemptions.Check.Soundness.{is_exempt-annotations}
use uds_core.Policies.Pod.{Request, Answer, approve, has_annotation, set_annotation, Json, Ctx}
use uds_core.Policies.Common.{
  annotate_mutation, annotate_with, mutations, mutated_key, add_name, safe_policy_name,
}
use uds_core.Policies.Handlers.{Env, exempt, mutate_unless_marked, unless_exempt, deny_any}

module _ (env : Env) where
  pub mutate-not_exempt :
      (p : Policy) (body : Request → Result Request Thrown) (r : Request)
      → exempt env r.metadata p ≡ ok false
      → mutate_unless_marked env p body r
        ≡ (if has_annotation (exemption_key p) r then ok r else body r)
  unfolding mutate_unless_marked
  mutate-not_exempt p body r e = rw e

  -- An exempt resource is marked, and not changed otherwise.
  pub mutate-exempt :
      (p : Policy) (body : Request → Result Request Thrown) (r : Request)
      → exempt env r.metadata p ≡ ok true
      → mutate_unless_marked env p body r ≡ ok (set_annotation (exemption_key p) "exempted" r)
  unfolding mutate_unless_marked
  mutate-exempt p body r e = rw e (
      ground (
        arith,
        lookup-insert (exemption_key p) (exemption_key p) "exempted" r.metadata.annotations,
        eq_refl (exemption_key p),
      ))

  pub mutate-throws :
      (p : Policy) (body : Request → Result Request Thrown) (r : Request) {x : Thrown}
      → exempt env r.metadata p ≡ err x
      → mutate_unless_marked env p body r ≡ err x
  unfolding mutate_unless_marked
  mutate-throws p body r e = rw e

  pub validate-exempt :
      (p : Policy) (md : Metadata) (a : Answer)
      → exempt env md p ≡ ok true
      → unless_exempt env p md a ≡ ok approve
  unfolding unless_exempt
  validate-exempt p md a e = rw e

  pub validate-not_exempt :
      (p : Policy) (md : Metadata) (a : Answer)
      → exempt env md p ≡ ok false
      → unless_exempt env p md a ≡ ok a
  unfolding unless_exempt
  validate-not_exempt p md a e = rw e

  pub exempt-set_annotation :
      (p : Policy) (key value : String) (r : Request)
      → exempt env (set_annotation key value r).metadata p ≡ exempt env r.metadata p
  exempt-set_annotation p key value r =
      is_exempt-annotations env.compile env.store r.metadata
        (insert key value r.metadata.annotations) p

annotate_with-eq-ok :
    (json : Json) (p : Policy) (r r' : Request) (text : String) (arr : Option (List String))
    → annotate_with json p r text arr ≡ ok r'
    → (value : String) × (r' ≡ set_annotation mutated_key value r)
annotate_with-eq-ok json p r r' text none h = cc
annotate_with-eq-ok json p r r' text (some arr) h =
    (json.stringify (add_name (safe_policy_name p) arr), cc)

-- A recorded mutation changes one annotation and nothing else.
pub annotate_mutation-eq-ok :
    (json : Json) (p : Policy) (r r' : Request)
    → annotate_mutation json p r ≡ ok r'
    → (value : String) × (r' ≡ set_annotation mutated_key value r)
unfolding annotate_mutation
annotate_mutation-eq-ok json p r r' h =
    annotate_with-eq-ok json p r r' (mutations r) (json.parse (mutations r)) h

pub deny_any-eq-approve :
    (msg : String) (authorized : List (Option String)) (found : List Ctx)
    → (deny_any msg authorized found ≡ approve) ↔ (found ≡ [])
deny_any-eq-approve msg authorized [] = (λ h. refl, λ h. refl)
deny_any-eq-approve msg authorized (c ∷ cs) = (λ h. absurd (ground arith), λ h. cc)

-- A validating handler approves what is exempt, and what is not exempt and has no fault.
module _ (env : Env) (p : Policy) (md : Metadata) where
  abbrev pub Approved : Type 0 → Type 0
  Approved Good = (exempt env md p ≡ ok true) ⊎ ((exempt env md p ≡ ok false) × Good)

  pub unless_exempt-eq-approve :
      (a : Answer) (Good : Type 0)
      → (a ≡ approve) ↔ Good
      → (unless_exempt env p md a ≡ ok approve) ↔ Approved Good
  unfolding unless_exempt
  unless_exempt-eq-approve a Good (to, from) = elim (Result-cases (exempt env md p)) [
    | inl (b, e) ↦ elim (Bool-cases b) [
      | inl yes_exempt ↦
          let e' : exempt env md p ≡ ok true = e ∙ ap ok yes_exempt in (λ h. inl e', λ h. rw e')
      | inr not_exempt ↦
          let e' : exempt env md p ≡ ok false = e ∙ ap ok not_exempt in
          (
            λ h. inr (e', to (ok_injective {E = Thrown} (rw e' at h))),
            λ h. elim h [ inl t ↦ absurd (ground (arith, e', t)) | inr (f, g) ↦ rw (e', from g) ],
          )
    ]
    | inr (x, e) ↦
        (λ h. absurd (ground (arith, e)), λ h. elim h [ inl t ↦ cc e | inr (f, g) ↦ cc e ])
  ]
