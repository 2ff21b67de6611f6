-- ===== src/Broker/Store/Acquired.antt =====
-- broker/store/dynamo.go: AcquireIdle as one step on the runner table.
use mathlib.Core.Bool.{true≢false}
use mathlib.Core.Path.{subst}
use cli_demo.Prelude.{
  ℕ, zero, suc, String, ◌≡◌, refl, sym, ◌∙◌, Bool, true, false, not, ◌⊎◌, inl, inr, List, [], ◌∷◌,
  Option, none, some, string_eq, Bool-cases, arith,
}
use cli_demo.Prelude.Dict.{lookup, insert}
use cli_demo.GoError.{
  Error, Sentinel, condition_failed, no_idle_runner, is_error, is_conditional_check_failed,
}
use cli_demo.Effect.{Result, ok, err, Eff}
use cli_demo.Effect.Commit.{Commit, committed, refused}
use cli_demo.Effect.Ends.{
  Ends, Post, Ends-pure, Ends-raise, Ends-if, Ends-bind, Ends-keeps, Ends-attempt, Ends-weaken,
}
use cli_demo.Broker.Store.Rows.{
  Runner, is_idle, Table, assign, accepts, apply_write, assign_row, idle_row,
}
use cli_demo.Broker.Store.{
  Action, Condition, attribute_exists, idle_bucket_attribute, assignment, DynamoRepository, Pass,
  acquired, passed, assigned, assign_session, after_assign, try_each, next_round, round,
  acquire_loop, acquire_idle, bucket_key, seen,
}
use cli_demo.Broker.Store.Invariants.{IsLawful, query_idle_bucket-On, shuffle-On}

-- A failed condition means that the request wrote nothing, and no error of the client is the
-- repository's own.
pub record IsRefusing {W I : Type 0} (repo : DynamoRepository W I) (table : W → Table)
    : Type 0 where
  pub condition_refuses :
      (id : String) (acts : List Action) (cond : Condition) (w : W) (e : Error)
      → (repo.client.update_item id acts cond w).0 ≡ err e
      → is_conditional_check_failed e ≡ true
      → table (repo.client.update_item id acts cond w).1 ≡ table w
  pub not_sentinel :
      (id : String) (acts : List Action) (cond : Condition) (w : W) (e : Error)
      → (repo.client.update_item id acts cond w).0 ≡ err e
      → (s : Sentinel) → is_error s e ≡ false

-- From table `t`, the idle runner `id` was given to the session.
abbrev pub Assigns : String → Table → String → Table → Type 0
Assigns sid t id t' =
    (held : Runner) × (lookup id t ≡ some held)
    × (is_idle held ≡ true)
    × (t' ≡ insert id (record held { current_session_id = sid; idle_bucket = "" }) t)

-- The abstract step with its result: nothing, or one runner.
abbrev pub Acquires : String → Table → Option Runner → Table → Type 0
Acquires sid t none t' = t' ≡ t
Acquires sid t (some r) t' =
    (r.current_session_id ≡ sid) × (r.idle_bucket ≡ "") × Assigns sid t r.runner_id t'

-- The abstract step without an answer: nothing, or one runner all the same.
abbrev pub AcquiresOrNot : String → Table → Table → Type 0
AcquiresOrNot sid t t' = (t' ≡ t) ⊎ ((id : String) × Assigns sid t id t')

assign_row-Assigns :
    (sid id : String) (t t' : Table) (o : Option Runner)
    → lookup id t ≡ o
    → idle_row o ≡ true
    → t' ≡ assign_row id sid o t
    → Assigns sid t id t'
assign_row-Assigns sid id t t' none e h a = absurd (ground (arith, h))
assign_row-Assigns sid id t t' (some r) e h a = (r, e, h, a)

module _ {W I : Type 0} (repo : DynamoRepository W I) (row : I → Runner) (table : W → Table)
    (law : IsLawful repo row table) (refusing : IsRefusing repo table) (sid : String)
    (t : Table) where
  abbrev Before : W → Type 0
  Before w = table w ≡ t

  -- What an error says: the one for no idle runner, that nothing has changed.
  abbrev Lost : Error → W → Type 0
  Lost e w = AcquiresOrNot sid t (table w) × (is_error no_idle_runner e ≡ true → Before w)

  -- What an error of one assignment says.
  abbrev NotAssigned : Error → W → Type 0
  NotAssigned e w =
      ((is_error condition_failed e ≡ true) × Before w)
      ⊎ ((is_error condition_failed e ≡ false) × Lost e w)

  committed-Assigns :
      (id : String) (w : W) (t' : Table)
      → Before w
      → accepts (table w) (assign id sid) ≡ true
      → t' ≡ apply_write (assign id sid) (table w)
      → Assigns sid t id t'
  unfolding accepts apply_write
  committed-Assigns id w t' b h e =
      let h' : idle_row (lookup id t) ≡ true = subst (λ s. idle_row (lookup id s) ≡ true) b h in
      let e' : t' ≡ assign_row id sid (lookup id t) t =
        subst (λ s. t' ≡ assign_row id sid (lookup id s) s) b e in
      assign_row-Assigns sid id t t' (lookup id t) refl h' e'

  abbrev update_request : String → Eff W (Unit {0})
  update_request id =
      repo.client.update_item id (assignment sid) (attribute_exists idle_bucket_attribute)

  -- What an error of one request says.
  abbrev NotUpdated : Error → W → Type 0
  NotUpdated e w =
      (is_error condition_failed e ≡ false)
      × (is_conditional_check_failed e ≡ true → Before w)
      × Lost e w

  update_item-Ends :
      (id : String) → Ends Before (update_request id) (λ u w. Assigns sid t id (table w)) NotUpdated
  update_item-Ends id = record {
    at = λ w b. go w b (update_request id w).0 refl (
        law.dynamo.update_item_commits id (assignment sid) (attribute_exists idle_bucket_attribute)
          w);
  }
    where
      go :
          (w : W)
          → Before w
          → (r : Result (Unit {0})) → (update_request id w).0 ≡ r
          → Commit
              (table w)
              (table (update_request id w).1)
              (accepts (table w) (assign id sid))
              (apply_write (assign id sid) (table w))
              r
          → Post (λ u w. Assigns sid t id (table w)) NotUpdated r (update_request id w).1
      go w b (ok u) same (committed h e) = committed-Assigns id w _ b h e
      go w b (ok u) same (refused x r e) = absurd (ground (arith, r))
      go w b (err x) same (committed h e) = (
        refusing.not_sentinel id (assignment sid) (attribute_exists idle_bucket_attribute) w x same
            condition_failed,
        (λ c.
            refusing.condition_refuses id (assignment sid) (attribute_exists idle_bucket_attribute)
              w x same c
            ∙ b),
        (
          inr (id, committed-Assigns id w _ b h e),
          (λ f. absurd (
              true≢false (
                sym f
                ∙ refusing.not_sentinel id (assignment sid) (attribute_exists idle_bucket_attribute)
                    w x same no_idle_runner))),
        ),
      )
      go w b (err x) same (refused y r e) = (
        refusing.not_sentinel id (assignment sid) (attribute_exists idle_bucket_attribute) w x same
            condition_failed,
        (λ c. e ∙ b),
        (inl (e ∙ b), (λ f. e ∙ b)),
      )

  assigned-Ends :
      (id : String) (r : Result (Unit {0}))
      → Ends
          (Post (λ u w. Assigns sid t id (table w)) NotUpdated r)
          (assigned repo r)
          (λ u w. Assigns sid t id (table w))
          NotAssigned
  unfolding assigned
  assigned-Ends id (ok u) = Ends-pure tt (λ w p. p)
  assigned-Ends id (err e) =
      Ends-if (is_conditional_check_failed e) _ _ (λ c. Ends-raise _ (λ w p. inl (refl, p.1 c)))
        (λ c. Ends-raise _ (λ w p. inr (p.0, p.2)))

  assign_session-Ends :
      (id : String)
      → Ends Before (assign_session repo id sid) (λ u w. Assigns sid t id (table w)) NotAssigned
  unfolding assign_session
  assign_session-Ends id =
      Ends-bind _ _ _ (Ends-attempt _ (update_item-Ends id)) (λ r. assigned-Ends id r)

  -- A pass over candidates: a runner that was assigned, or nothing was done.
  abbrev Passes : Pass → W → Type 0
  Passes (acquired r) w = Acquires sid t (some r) (table w)
  Passes (passed b tried) w = Before w

  after_assign-Ends :
      (r : Runner) (rest : Eff W Pass) (x : Result (Unit {0}))
      → Ends Before rest Passes Lost
      → Ends
          (Post (λ u w. Assigns sid t r.runner_id (table w)) NotAssigned x)
          (after_assign repo sid r rest x)
          Passes
          Lost
  unfolding after_assign
  after_assign-Ends r rest (ok u) h = Ends-pure _ (λ w p. (refl, refl, p))
  after_assign-Ends r rest (err e) h =
      Ends-if (not (is_error condition_failed e)) _ _ (λ other. Ends-raise e (λ w p. lost w p))
        (λ again. Ends-weaken (λ w p. before w again p) (λ a w q. q) (λ x w q. q) h)
    where
      lost : (w : W) → NotAssigned e w → Lost e w
      lost w (inl p) = (inl p.1, (λ f. p.1))
      lost w (inr p) = p.1

      before : (w : W) → not (is_error condition_failed e) ≡ false → NotAssigned e w → Before w
      before w again (inl p) = p.1
      before w again (inr p) = absurd (ground (arith, again, p.0))

  try_each-Ends :
      (rs : List Runner) (b : Bool) (tried : List String)
      → Ends Before (try_each repo sid rs b tried) Passes Lost
  unfolding try_each
  try_each-Ends [] b tried = Ends-pure _ (λ w p. p)
  try_each-Ends (r ∷ rs) b tried = elim (Bool-cases (seen tried r.runner_id)) [
    | inl e ↦ rw (e, try_each) (try_each-Ends rs b tried)
    | inr e ↦
        rw (e, try_each)
          (Ends-bind _ _ _ (Ends-attempt _ (assign_session-Ends r.runner_id))
            (λ x. after_assign-Ends r _ x (try_each-Ends rs true (r.runner_id ∷ tried))))
  ]

  next_round-Ends :
      (again : List String → Eff W (Option Runner)) (p : Pass)
      → ((tried : List String) → Ends Before (again tried) (λ o w. Acquires sid t o (table w)) Lost)
      → Ends (Passes p) (next_round repo again p) (λ o w. Acquires sid t o (table w)) Lost
  unfolding next_round
  next_round-Ends again (acquired r) h = Ends-pure _ (λ w p. p)
  next_round-Ends again (passed false tried) h = Ends-raise _ (λ w p. (inl p, (λ f. p)))
  next_round-Ends again (passed true tried) h = h tried

  round-Ends :
      (bucket : String) (tried : List String) (again : List String → Eff W (Option Runner))
      (rs : List Runner)
      → ((tried : List String) → Ends Before (again tried) (λ o w. Acquires sid t o (table w)) Lost)
      → Ends Before (round repo sid bucket tried again rs) (λ o w. Acquires sid t o (table w)) Lost
  unfolding round
  round-Ends bucket tried again [] h = Ends-raise _ (λ w p. (inl p, (λ f. p)))
  round-Ends bucket tried again (r ∷ rs) h =
      Ends-bind _ _ (λ ss. Before)
        (Ends-weaken (λ w p. p) (λ a w q. q) (λ e w q. (inl q, (λ f. q)))
          (Ends-keeps _ (shuffle-On repo row table law (λ s. s ≡ t) (r ∷ rs))))
        (λ ss. Ends-bind _ _ Passes (try_each-Ends ss false tried) (λ p. next_round-Ends again p h))

  acquire_loop-Ends :
      (fuel : ℕ) (bucket : String) (tried : List String)
      → Ends Before
          (acquire_loop repo fuel sid bucket tried)
          (λ o w. Acquires sid t o (table w))
          Lost
  unfolding acquire_loop
  acquire_loop-Ends zero bucket tried = Ends-pure _ (λ w p. p)
  acquire_loop-Ends (suc fuel) bucket tried =
      Ends-bind _ _ (λ rs. Before)
        (Ends-weaken (λ w p. p) (λ a w q. q) (λ e w q. (inl q, (λ f. q)))
          (Ends-keeps _ (query_idle_bucket-On repo row table law (λ s. s ≡ t) bucket)))
        (λ rs. round-Ends bucket tried _ rs (λ s. acquire_loop-Ends fuel bucket s))

  -- AcquireIdle refines one step on the runner table: where it returns a runner, the row of
  -- that runner was idle, now has the session and is idle no more, and no other row has
  -- changed, whatever the index answered and however often it tried; where it has none to
  -- return within its fuel, nothing has changed. An error leaves the table as it was, or one
  -- idle runner was given to the session and the answer lost; the error for no idle runner
  -- leaves it as it was. DynamoDB changes the table by committed writes only, a failed
  -- condition means that nothing was written, and no error of the client is the repository's
  -- own.
  pub acquire_idle-Acquires :
      (fuel bucket : ℕ)
      → Ends
          (λ w. table w ≡ t)
          (acquire_idle repo fuel sid bucket)
          (λ o w. Acquires sid t o (table w))
          (λ e w. AcquiresOrNot sid t (table w) × (is_error no_idle_runner e ≡ true → table w ≡ t))
  unfolding acquire_idle
  acquire_idle-Acquires fuel bucket = acquire_loop-Ends fuel (bucket_key bucket) []
