-- ===== src/Authservice/Rollback.antt =====
-- The configuration in memory, the last one that was written, and what a failed write restores.
use uds_core.Prelude.{
  ℕ, String, Bool, true, false, nat_eq, nat_eq_iff, Option, none, some, List, if◌then◌else◌, Result,
  ok, err, ◌≡◌, ◌∙◌, refl, sym, ap, Bool-cases, inl, inr, ok_injective,
}
use uds_core.Authservice.{
  Chain, Action, Event, Defaults, Config, Heap, Failure, store, allocate, set_defaults, build_chain,
  with_chain, configured, build_config,
}

-- inMemorySecret and lastSuccessfulSecret.
pub record State : Type 0 where
  pub heap : Heap
  pub memory : Option Config
  pub last : Option Config

-- A parsed secret.
pub record Secret : Type 0 where
  pub defaults : Defaults
  pub chains : List Chain
  pub others : List (String × String)

abbrev pub parsed : Secret → Heap → Config
parsed s h = record { defaults = h.next; chains = s.chains; others = s.others }

abbrev fetched : State → Result Secret Failure → Result (State × Config) Failure
fetched s (ok secret) =
    let config = parsed secret s.heap in
    ok (
      record { heap = allocate secret.defaults s.heap; memory = some config; last = some config },
      config,
    )
fetched s (err e) = err e

-- getAuthserviceConfig; `read` is the secret of the cluster.
abbrev known : Result Secret Failure → State → Option Config → Result (State × Config) Failure
known read s none = fetched s read
known read s (some config) = ok (s, config)

unfoldable pub get_authservice_config :
    Result Secret Failure → State → Result (State × Config) Failure
get_authservice_config read s = known read s s.memory

module _ (hostname : String → Option String) (domain : String)
    (sort : List Chain → List Chain) where
  abbrev remembered : State → Result (Heap × Config) Failure → Result (State × Config) Failure
  remembered s (ok (h, config)) = ok (record s { heap = h; memory = some config }, config)
  remembered s (err e) = err e

  abbrev built : Event → Result (State × Config) Failure → Result (State × Config) Failure
  built e (ok (s, config)) = remembered s (build_config hostname domain sort e config s.heap)
  built e (err x) = err x

  -- updateConfig up to the write of the secret: the configuration that is to be written.
  unfoldable pub update_config :
      Result Secret Failure → Event → State → Result (State × Config) Failure
  update_config read e s = built e (get_authservice_config read s)

-- The end of the write in updateAuthServiceSecret: the secret that the cluster gives back, then the
-- checksum of the deployment; either may fail, and is followed by the rollback.
unfoldable pub write_ended : Result Secret Failure → Result (Unit {0}) Failure → State → State
write_ended (ok secret) (ok u) s = record s {
  heap = allocate secret.defaults s.heap;
  last = some (parsed secret s.heap);
}
write_ended (ok secret) (err e) s = record s {
  heap = allocate secret.defaults s.heap;
  memory = some (parsed secret s.heap);
  last = some (parsed secret s.heap);
}
write_ended (err e) sum s = record s { memory = s.last }

-- What a configuration says: its default settings and its chains.
abbrev pub view : Heap → Config → Defaults × List Chain
view h config = (h.at config.defaults, config.chains)

-- The default settings after an event that was taken.
abbrev pub after_event : Action → Event → Defaults → Defaults
after_event Action.update_global_config e d = set_defaults e d
after_event Action.add_client e d = d
after_event Action.remove_client e d = d

module _ (hostname : String → Option String) (domain : String)
    (sort : List Chain → List Chain) where
  branch_same {ℓ} : {A : Type ℓ} (b : Bool) (a : A) → a ≡ (if b then a else a)
  branch_same true a = refl
  branch_same false a = refl

  added_heap :
      (e : Event) (config c1 : Config) (h h1 : Heap) (r : Result Chain Failure)
      → with_chain hostname domain sort e config h r ≡ ok (h1, c1)
      → h1 ≡ h
  added_heap e config c1 h h1 (ok c) built =
      ap (λ (p : Heap × Config). p.0) (ok_injective {E = Failure} (sym built))
  added_heap e config c1 h h1 (err x) built = cc

  stored :
      (at a : ℕ) (f : Defaults → Defaults) (d : ℕ → Defaults)
      → (if nat_eq at a then f (d a) else d at) ≡ (if nat_eq at a then f (d at) else d at)
  stored at a f d = elim (Bool-cases (nat_eq at a)) [
    | inl same ↦ rw same (ap (λ x. f (d x)) (sym ((nat_eq_iff at a).0 same)))
    | inr other ↦ rw other refl
  ]

  configured-heap :
      (a : Action) (e : Event) (config c1 : Config) (h h1 : Heap) (at : ℕ)
      → configured hostname domain sort a e config h ≡ ok (h1, c1)
      → h1.at at ≡ (if nat_eq at config.defaults then after_event a e (h.at at) else h.at at)
  configured-heap Action.add_client e config c1 h h1 at built =
      let same = added_heap e config c1 h h1 (build_chain hostname domain e) built in
      rw same (branch_same (nat_eq at config.defaults) (h.at at))
  configured-heap Action.remove_client e config c1 h h1 at built =
      let same : h1 ≡ h =
        ap (λ (p : Heap × Config). p.0) (ok_injective {E = Failure} (sym built)) in
      rw same (branch_same (nat_eq at config.defaults) (h.at at))
  configured-heap Action.update_global_config e config c1 h h1 at built =
      let same : h1 ≡ store config.defaults (set_defaults e (h.at config.defaults)) h =
        ap (λ (p : Heap × Config). p.0) (ok_injective {E = Failure} (sym built)) in
      rw same (stored at config.defaults (set_defaults e) h.at)

  update-eq :
      (read : Result Secret Failure) (e : Event) (s : State) (m : Config)
      → s.memory ≡ some m
      → update_config hostname domain sort read e s
        ≡ remembered hostname domain sort s (build_config hostname domain sort e m s.heap)
  unfolding update_config get_authservice_config
  update-eq read e s m here = rw here refl

  remembered_cases :
      (s : State) (r : Result (Heap × Config) Failure) (s1 : State) (c : Config)
      → remembered hostname domain sort s r ≡ ok (s1, c)
      → (h1 : Heap) × (c1 : Config) × (r ≡ ok (h1, c1))
        × (s1 ≡ record s { heap = h1; memory = some c1 })
  remembered_cases s (ok (h1, c1)) s1 c e =
      (h1, c1, refl, ap (λ (p : State × Config). p.0) (ok_injective {E = Failure} (sym e)))
  remembered_cases s (err x) s1 c e = cc

  -- A failed write of an updated configuration brings the last written one back into memory. Its
  -- chains are those of the last write; but its default settings are so only if they are not the
  -- object that the updated configuration has too (which they are as long as the secret has been
  -- read and never written): then an update of the global settings stays.
  pub failed_write-view :
      (read : Result Secret Failure) (e : Event) (s s1 : State) (m l c : Config) (x : Failure)
      → s.memory ≡ some m
      → s.last ≡ some l
      → update_config hostname domain sort read e s ≡ ok (s1, c)
      → ((write_ended (err x) (ok tt) s1).memory ≡ some l)
        × (view (write_ended (err x) (ok tt) s1).heap l ≡ (
          if nat_eq l.defaults m.defaults
              then after_event e.action e (s.heap.at l.defaults)
              else s.heap.at l.defaults,
          l.chains,
        ))
  unfolding write_ended build_config
  failed_write-view read e s s1 m l c x here before done =
      let (h1, c1, made, after) =
        remembered_cases s (build_config hostname domain sort e m s.heap) s1 c
          (sym (update-eq read e s m here) ∙ done) in
      (
        ap (λ (y : State). y.last) after ∙ before,
        ap (λ (y : State). view y.heap l) after
            ∙ ap (λ (d : Defaults). (d, l.chains))
                (configured-heap e.action e m c1 s.heap h1 l.defaults made),
      )
