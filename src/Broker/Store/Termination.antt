-- ===== src/Broker/Store/Termination.antt =====
-- broker/store/dynamo.go: how long AcquireIdle goes on.
use mathlib.Core.Bool.{true≢false}
use mathlib.Core.Path.{subst}
use cli_demo.Prelude.{
  ℕ, zero, suc, ◌≤◌, ◌<◌, String, ◌≡◌, refl, sym, ap, ◌∙◌, Bool, true, false, not, ◌||◌, ◌⊎◌, inl,
  inr, List, [], ◌∷◌, Option, ◌==◌, string_eq, eq_iff, Bool-cases, if◌then◌else◌, arith, All,
}
use cli_demo.GoError.{condition_failed, is_error}
use cli_demo.Effect.{Result, ok, err, Eff}
use cli_demo.Effect.Ends.{
  Ends, Any, AnyOf, Ends-pure, Ends-raise, Ends-if, Ends-bind, Ends-any, Ends-weaken,
  Ends-bind_lift, Ends-wrapping,
}
use cli_demo.Broker.Store.Rows.{Runner}
use cli_demo.Broker.Service.Progress.{Present}
use cli_demo.Broker.Store.{
  DynamoRepository, Pass, acquired, passed, after_assign, try_each, unmarshal_all,
  query_idle_bucket, next_round, round, acquire_loop, acquire_idle, bucket_key, seen,
  idle_query_limit,
}

-- How many of the ids were not tried.
unfoldable pub untried : List String → List String → ℕ
untried [] tried = zero
untried (i ∷ ids) tried = let n = untried ids tried in if seen tried i then n else suc n

step-le : (b c : Bool) (m n : ℕ) → m ≤ n → (if b || c then m else suc m) ≤ (if c then n else suc n)
step-le true true m n h = h
step-le true false m n h = omega arith
step-le false true m n h = h
step-le false false m n h = omega arith

untried-le : (ids tried : List String) (id : String) → untried ids (id ∷ tried) ≤ untried ids tried
unfolding untried seen
untried-le [] tried id = omega arith
untried-le (i ∷ ids) tried id = step-le (id == i) (seen tried i) _ _ (untried-le ids tried id)

-- The first id is the new one, or a later one is.
step-lt :
    (b c : Bool) (m n : ℕ)
    → ((b ≡ true) × (c ≡ false) × (m ≤ n)) ⊎ (m < n)
    → (if b || c then m else suc m) < (if c then n else suc n)
step-lt true true m n (inl h) = absurd (true≢false h.1)
step-lt true true m n (inr h) = h
step-lt true false m n (inl h) = omega (arith, h.2)
step-lt true false m n (inr h) = omega arith
step-lt false true m n (inl h) = absurd (true≢false (sym h.0))
step-lt false true m n (inr h) = h
step-lt false false m n (inl h) = absurd (true≢false (sym h.0))
step-lt false false m n (inr h) = omega arith

untried-lt :
    (ids tried : List String) (id : String)
    → seen ids id ≡ true
    → seen tried id ≡ false
    → untried ids (id ∷ tried) < untried ids tried
unfolding untried seen
untried-lt [] tried id h g = absurd (true≢false (sym h))
untried-lt (i ∷ ids) tried id h g =
    step-lt (id == i) (seen tried i) _ _ (elim (Bool-cases (i == id)) [
      | inl e ↦
          let same : i ≡ id = (eq_iff i id).0 e in
          inl (
            (eq_iff id i).1 (sym same),
            subst (λ x. seen tried x ≡ false) (sym same) g,
            untried-le ids tried id,
          )
      | inr e ↦ inr (untried-lt ids tried id (ap (λ b. b || seen ids id) (sym e) ∙ h) g)
    ])

-- The index answers with these ids only, and shuffling keeps what holds of all candidates.
pub record IsBounded {W I : Type 0} (repo : DynamoRepository W I) (ids : List String) : Type 0 where
  pub known :
      (b : String) (n : ℕ)
      → Ends Any
          (repo.client.query_idle b n)
          (λ items w.
            All
              (λ i. (r : Runner) → repo.unmarshal_map i ≡ ok r → seen ids r.runner_id ≡ true)
              items)
          AnyOf
  pub shuffle_keeps :
      (rs : List Runner)
      → All (λ r. seen ids r.runner_id ≡ true) rs
      → Ends Any (repo.shuffle rs) (λ ss w. All (λ r. seen ids r.runner_id ≡ true) ss) AnyOf

module _ {W I : Type 0} (repo : DynamoRepository W I) (ids : List String) (law : IsBounded repo ids)
    (sid : String) where
  abbrev IsKnown : Runner → Type 0
  IsKnown r = seen ids r.runner_id ≡ true

  abbrev IsKnownItem : I → Type 0
  IsKnownItem i = (r : Runner) → repo.unmarshal_map i ≡ ok r → IsKnown r

  unmarshal_all-IsKnown :
      (is : List I)
      → All IsKnownItem is
      → Ends Any (unmarshal_all repo is) (λ rs w. All IsKnown rs) AnyOf
  unfolding unmarshal_all
  unmarshal_all-IsKnown [] h = Ends-pure [] (λ w p. tt)
  unmarshal_all-IsKnown (i ∷ is) h =
      Ends-bind_lift "unmarshal runner" (repo.unmarshal_map i) _ (λ r e.
        Ends-bind _ _ (λ rs w. All IsKnown rs) (unmarshal_all-IsKnown is h.1)
          (λ rs. Ends-pure (r ∷ rs) (λ w p. (h.0 r e, p))))

  -- A pass that tried a new runner leaves fewer that were not tried.
  abbrev Shrinks : Bool → List String → Pass → Type 0
  Shrinks b tried (acquired r) = Unit
  Shrinks b tried (passed b' tried') =
      (untried ids tried' ≤ untried ids tried)
      × (b' ≡ true → (b ≡ true) ⊎ (untried ids tried' < untried ids tried))

  after_assign-Shrinks :
      (b : Bool) (tried : List String) (r : Runner) (rest : Eff W Pass) (x : Result (Unit {0}))
      → Ends Any rest (λ p w. Shrinks b tried p) AnyOf
      → Ends Any (after_assign repo sid r rest x) (λ p w. Shrinks b tried p) AnyOf
  unfolding after_assign
  after_assign-Shrinks b tried r rest (ok u) h = Ends-pure _ (λ w p. tt)
  after_assign-Shrinks b tried r rest (err e) h =
      Ends-if (not (is_error condition_failed e)) _ _ (λ other. Ends-raise e (λ w p. tt))
        (λ again. h)

  new-Shrinks :
      (b : Bool) (tried : List String) (r : Runner) (p : Pass)
      → IsKnown r
      → seen tried r.runner_id ≡ false
      → Shrinks true (r.runner_id ∷ tried) p
      → Shrinks b tried p
  new-Shrinks b tried r (acquired q) k g h = tt
  new-Shrinks b tried r (passed b' tried') k g h =
      let less = untried-lt ids tried r.runner_id k g in
      (omega (arith, h.0), (λ e. inr (omega (arith, h.0))))

  try_each-Shrinks :
      (rs : List Runner) (b : Bool) (tried : List String)
      → All IsKnown rs
      → Ends Any (try_each repo sid rs b tried) (λ p w. Shrinks b tried p) AnyOf
  unfolding try_each
  try_each-Shrinks [] b tried k = Ends-pure _ (λ w p. (omega arith, (λ e. inl e)))
  try_each-Shrinks (r ∷ rs) b tried k = elim (Bool-cases (seen tried r.runner_id)) [
    | inl e ↦ rw (e, try_each) (try_each-Shrinks rs b tried k.1)
    | inr e ↦
        rw (e, try_each)
          (Ends-bind _ _ (λ x. Any) (Ends-any _)
            (λ x. after_assign-Shrinks b tried r _ x (
              Ends-weaken (λ w p. p) (λ p w q. new-Shrinks b tried r p k.0 e q) (λ x w q. q)
                (try_each-Shrinks rs true (r.runner_id ∷ tried) k.1))))
  ]

  next_round-Present :
      (tried : List String) (again : List String → Eff W (Option Runner)) (p : Pass)
      → ((tried' : List String)
          → untried ids tried' < untried ids tried
          → Ends Any (again tried') (λ o w. Present o) AnyOf)
      → Shrinks false tried p
      → Ends Any (next_round repo again p) (λ o w. Present o) AnyOf
  unfolding next_round
  next_round-Present tried again (acquired r) k h = Ends-pure _ (λ w p. tt)
  next_round-Present tried again (passed false tried') k h = Ends-raise _ (λ w p. tt)
  next_round-Present tried again (passed true tried') k h = elim (h.1 refl) [
    | inl e ↦ absurd (true≢false (sym e))
    | inr less ↦ k tried' less
  ]

  round-Present :
      (bucket : String) (tried : List String) (again : List String → Eff W (Option Runner))
      (rs : List Runner)
      → ((tried' : List String)
          → untried ids tried' < untried ids tried
          → Ends Any (again tried') (λ o w. Present o) AnyOf)
      → All IsKnown rs
      → Ends Any (round repo sid bucket tried again rs) (λ o w. Present o) AnyOf
  unfolding round
  round-Present bucket tried again [] k h = Ends-raise _ (λ w p. tt)
  round-Present bucket tried again (r ∷ rs) k h =
      Ends-bind _ _ _ (law.shuffle_keeps (r ∷ rs) h) (λ ss. record {
        at = λ w known.
            (Ends-bind _ _ (λ p w. Shrinks false tried p) (try_each-Shrinks ss false tried known)
                (λ p. record { at = λ v s. (next_round-Present tried again p k s).at v tt })).at
              w tt;
      })

  query_idle_bucket-IsKnown :
      (b : String) → Ends Any (query_idle_bucket repo b) (λ rs w. All IsKnown rs) AnyOf
  unfolding query_idle_bucket
  query_idle_bucket-IsKnown b =
      Ends-bind _ _ (λ items w. All IsKnownItem items)
        (Ends-wrapping _ _
          (Ends-weaken (λ w p. p) (λ a w q. q) (λ e w q. q) (law.known b idle_query_limit)))
        (λ items. record { at = λ w h. (unmarshal_all-IsKnown items h).at w tt })

  acquire_loop-Present :
      (fuel : ℕ) (bucket : String) (tried : List String)
      → untried ids tried < fuel
      → Ends Any (acquire_loop repo fuel sid bucket tried) (λ o w. Present o) AnyOf
  unfolding acquire_loop
  acquire_loop-Present zero bucket tried h = absurd (omega arith)
  acquire_loop-Present (suc fuel) bucket tried h =
      Ends-bind _ _ _ (query_idle_bucket-IsKnown bucket) (λ rs. record {
        at = λ w known.
            (round-Present bucket tried _ rs
                (λ tried' less. acquire_loop-Present fuel bucket tried' (omega arith)) known).at
              w tt;
      })

  -- AcquireIdle ends with a runner or an error, given fuel for one pass more than there are
  -- runners that the index can answer with, however often the index repeats runners that are
  -- taken. The index answers with runners of a finite list of ids, and shuffling keeps what
  -- holds of all candidates.
  pub acquire_idle-Present :
      (fuel bucket : ℕ)
      → untried ids [] < fuel
      → Ends Any (acquire_idle repo fuel sid bucket) (λ o w. Present o) AnyOf
  unfolding acquire_idle
  acquire_idle-Present fuel bucket h = acquire_loop-Present fuel (bucket_key bucket) [] h
