-- ===== src/Authservice/Chains.antt =====
-- What the events do to the chains.
use uds_core.Prelude.{
  ℕ, ◌+◌, String, Bool, false, not, ◌&&◌, ◌==◌, Option, none, some, List, [], ◌∷◌, ◌++◌, filter,
  length, ok, ◌≡◌, ◌∙◌, refl, sym, ap, arith, eq_refl, inl, inr, ok_injective, Result-cases,
}
use uds_core.Authservice.{
  Client, Chain, Action, Event, Config, Heap, Failure, without, chain_at, chain_for, chain_of,
  build_chain, configured, build_config,
}

-- How many members pass a test.
abbrev pub count : (Chain → Bool) → List Chain → ℕ
count t cs = length (filter t cs)

-- A sort keeps every member as often as it was.
abbrev pub Permutes : (List Chain → List Chain) → Type 0
Permutes sort = (t : Chain → Bool) (cs : List Chain) → count t (sort cs) ≡ count t cs

count-append :
    (t : Chain → Bool) (cs ds : List Chain) → count t (cs ++ ds) ≡ count t cs + count t ds
count-append t [] ds = ground arith
count-append t (c ∷ cs) ds = ground (arith, count-append t cs ds)

count-without :
    (t : Chain → Bool) (name : String) (cs : List Chain)
    → count t (without name cs) ≡ count (λ c. not (c.name == name) && t c) cs
count-without t name [] = refl
count-without t name (c ∷ cs) = ground (arith, count-without t name cs)

-- Tests that agree count the same.
count-agree :
    (t u : Chain → Bool) → ((c : Chain) → t c ≡ u c) → (cs : List Chain) → count t cs ≡ count u cs
count-agree t u e [] = refl
count-agree t u e (c ∷ cs) = ground (arith, e c, count-agree t u e cs)

count-none : (t : Chain → Bool) → ((c : Chain) → t c ≡ false) → (cs : List Chain) → count t cs ≡ 0
count-none t e [] = refl
count-none t e (c ∷ cs) = ground (arith, e c, count-none t e cs)

twice : (a b : Bool) → (not a && (not a && b)) ≡ (not a && b)
twice a b = ground arith

never : (a : Bool) → (not a && a) ≡ false
never a = ground arith

abbrev pub named : String → Chain → Bool
named name c = c.name == name

-- The chains without a name, to which a chain of that name was added and sorted in.
abbrev sorted_in : (List Chain → List Chain) → String → Chain → List Chain → List Chain
sorted_in sort name new cs = sort (without name cs ++ new ∷ [])

module _ (sort : List Chain → List Chain) (permutes : Permutes sort) (name : String) (new : Chain)
    (cs : List Chain) where
  -- Exactly one chain has the name.
  one_named : new.name ≡ name → count (named name) (sorted_in sort name new cs) ≡ 1
  one_named e =
      permutes (named name) (without name cs ++ new ∷ [])
      ∙ count-append (named name) (without name cs) (new ∷ [])
      ∙ ground (
        arith,
        count-without (named name) name cs,
        count-none (λ c. not (named name c) && named name c) (λ c. never (named name c)) cs,
        e,
        eq_refl name,
      )

  -- Without the name, they are what they were.
  same_others :
      new.name ≡ name
      → (t : Chain → Bool)
      → count t (without name (sorted_in sort name new cs)) ≡ count t (without name cs)
  same_others e t =
      let other : Chain → Bool = λ c. not (named name c) && t c in
      count-without t name (sorted_in sort name new cs)
      ∙ permutes other (without name cs ++ new ∷ [])
      ∙ count-append other (without name cs) (new ∷ [])
      ∙ ground (
        arith,
        count-without other name cs,
        count-agree (λ c. not (named name c) && other c) other (λ c. twice (named name c) (t c)) cs,
        count-without t name cs,
        e,
        eq_refl name,
      )

module _ (hostname : String → Option String) (domain : String) where
  chain_at-name :
      (e : Event) (client : Client) (uri : String) (host : Option String) (c : Chain)
      → chain_at hostname domain e client uri host ≡ ok c
      → c.name ≡ e.name
  chain_at-name e client uri none c h = cc
  chain_at-name e client uri (some host) c h =
      sym (ap (λ (x : Chain). x.name) (ok_injective {E = Failure} h))

  chain_for-name :
      (e : Event) (client : Client) (uris : List String) (c : Chain)
      → chain_for hostname domain e client uris ≡ ok c
      → c.name ≡ e.name
  chain_for-name e client [] c h = cc
  chain_for-name e client (uri ∷ uris) c h = chain_at-name e client uri (hostname uri) c h

  chain_of-name :
      (e : Event) (client : Option Client) (c : Chain)
      → chain_of hostname domain e client ≡ ok c
      → c.name ≡ e.name
  chain_of-name e none c h = cc
  chain_of-name e (some client) c h = chain_for-name e client client.redirect_uris c h

  build_chain-name :
      (e : Event) (c : Chain) → build_chain hostname domain e ≡ ok c → c.name ≡ e.name
  unfolding build_chain
  build_chain-name e c h = chain_of-name e e.client c h

  added :
      (sort : List Chain → List Chain) (e : Event) (config : Config) (h : Heap) (new : Chain)
      (a : Action)
      → a ≡ Action.add_client
      → build_chain hostname domain e ≡ ok new
      → configured hostname domain sort a e config h
        ≡ ok (h, record config { chains = sorted_in sort e.name new config.chains })
  added sort e config h new a add good = rw add (rw good refl)

  -- Adding a client and removing it again: in between exactly one chain has the client's name; the
  -- removal succeeds, and leaves the chains that were there before, less those of the client's
  -- name, each as often as it was. The sort is supposed to keep every member as often as it was.
  pub build_config-removed :
      (sort : List Chain → List Chain)
      → Permutes sort
      → (e d : Event) (config c1 : Config) (h h1 : Heap) → e.action ≡ Action.add_client
      → d.action ≡ Action.remove_client
      → d.name ≡ e.name
      → build_config hostname domain sort e config h ≡ ok (h1, c1)
      → (count (named e.name) c1.chains ≡ 1)
        × (c2 : Config) × (build_config hostname domain sort d c1 h1 ≡ ok (h1, c2))
        × ((t : Chain → Bool) → count t c2.chains ≡ count t (without e.name config.chains))
  unfolding build_config
  build_config-removed sort perm e d config c1 h h1 add remove same built =
      elim (Result-cases (build_chain hostname domain e)) [
        | inr (x, bad) ↦ absurd (ground (arith, add, bad, built))
        | inl (new, good) ↦
            let own = build_chain-name e new good in
            let known : build_config hostname domain sort e config h
                ≡ ok (h, record config { chains = sorted_in sort e.name new config.chains }) =
              added sort e config h new e.action add good in
            let chains : c1.chains ≡ sorted_in sort e.name new config.chains =
              ap (λ (p : Heap × Config). p.1.chains)
                (ok_injective {E = Failure} (sym built ∙ known)) in
            (
              rw chains (one_named sort perm e.name new config.chains own),
              record c1 { chains = without d.name c1.chains },
              rw remove refl,
              λ t. rw same (rw chains (same_others sort perm e.name new config.chains own t)),
            )
      ]
