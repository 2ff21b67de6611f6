-- ===== src/Broker/Store/Invariants.antt =====
-- broker/store: predicates on the runner table under the operations of the repository, given how
-- each single write treats them.
use cli_demo.Prelude.{
  ℕ, zero, suc, String, ◌≡◌, refl, Bool, true, false, List, [], ◌∷◌, Option, none, some, ◌==◌,
  string_eq, Bool-cases, inl, inr,
}
use cli_demo.Effect.{Result, ok, err, Eff, continue, ◌>>=◌}
use cli_demo.Effect.Commit.{Commit-keeps}
use cli_demo.Effect.Keeps.{
  Keeps, keeps_rules, Keeps-bind, Keeps-attempt, Keeps-if, Keeps-raise, Keeps-pure, Keeps-lift,
  Keeps-bind-wrapping_lift, Keeps-wrapping,
}
use cli_demo.Broker.Store.Rows.{
  Runner, Table, create, assign, remove, IsDynamo, accepts, apply_write,
}
use cli_demo.Broker.Store.{
  attribute_exists, attribute_not_exists, runner_id_attribute, idle_bucket_attribute, assignment,
  DynamoRepository, Pass, acquired, passed, found, find_by_id, find_by_session_id, registered,
  register, unmarshal_all, query_idle_bucket, assigned, assign_session, after_assign, try_each,
  next_round, round, acquire_loop, acquire_idle, delete, seen,
}

-- What the repository relies on: DynamoDB, sources of randomness that write nothing and give buckets
-- with names, and marshalling that keeps a runner what it is.
pub record IsLawful {W I : Type 0} (repo : DynamoRepository W I) (row : I → Runner)
    (table : W → Table) : Type 0 where
  pub dynamo : IsDynamo repo.client row table
  pub bucket_reads : (w : W) → table (repo.bucket_fn w).1 ≡ table w
  pub shuffle_reads : (rs : List Runner) (w : W) → table (repo.shuffle rs w).1 ≡ table w
  -- a bucket has a name
  pub bucket_named : (w : W) (b : String) → (repo.bucket_fn w).0 ≡ ok b → (b == "") ≡ false
  pub marshal_row : (r : Runner) (i : I) → repo.marshal_map r ≡ ok i → row i ≡ r

-- A bind whose first part returns only values with a property.
Keeps-bind-named :
    {W A B : Type 0} {P : W → Type 0} {N : A → Type 0} {m : Eff W A} (f : A → Eff W B)
    → Keeps P m
    → ((w : W) (a : A) → (m w).0 ≡ ok a → N a)
    → ((a : A) → N a → Keeps P (f a))
    → Keeps P (m >>= f)
unfolding ◌>>=◌
Keeps-bind-named {W} {A} {B} {P} {m = m} f km named kf = record { at = λ w h. go (m w).0 w refl h }
  where
    go : (r : Result A) (w : W) → (m w).0 ≡ r → P w → P (continue r f (m w).1).1
    go (ok a) w e h = (kf a (named w a e)).at (m w).1 (km.at w h)
    go (err x) w e h = km.at w h

module _ {W I : Type 0} (repo : DynamoRepository W I) (row : I → Runner) (table : W → Table)
    (law : IsLawful repo row table) (P : Table → Type 0) where
  abbrev On : W → Type 0
  On w = P (table w)

  found-On : (o : Option I) → Keeps On (found repo o)
  unfolding found
  found-On none = search keeps_rules
  found-On (some i) = search keeps_rules

  get_item-On : (id : String) → Keeps On (repo.client.get_item id)
  get_item-On id = record { at = λ w h. rw (law.dynamo.get_item_reads id w) h }

  query_idle-On : (b : String) (n : ℕ) → Keeps On (repo.client.query_idle b n)
  query_idle-On b n = record { at = λ w h. rw (law.dynamo.query_idle_reads b n w) h }

  query_session-On : (s : String) (n : ℕ) → Keeps On (repo.client.query_session s n)
  query_session-On s n = record { at = λ w h. rw (law.dynamo.query_session_reads s n w) h }

  pub shuffle-On : (rs : List Runner) → Keeps On (repo.shuffle rs)
  shuffle-On rs = record { at = λ w h. rw (law.shuffle_reads rs w) h }

  bucket_fn-On : Keeps On repo.bucket_fn
  bucket_fn-On = record { at = λ w h. rw (law.bucket_reads w) h }

  find_by_id-On : (id : String) → Keeps On (find_by_id repo id)
  unfolding find_by_id
  find_by_id-On id = search (keeps_rules, get_item-On, found-On)

  -- Finding a runner changes nothing.
  pub find_by_session_id-On : (sid : String) → Keeps On (find_by_session_id repo sid)
  unfolding find_by_session_id
  find_by_session_id-On sid = search (keeps_rules, query_session-On, found-On)

  unmarshal_all-On : (is : List I) → Keeps On (unmarshal_all repo is)
  unfolding unmarshal_all
  unmarshal_all-On [] = search keeps_rules
  unmarshal_all-On (i ∷ is) =
      Keeps-bind _ _ (Keeps-wrapping _ _ (Keeps-lift (repo.unmarshal_map i)))
        (λ r. Keeps-bind _ _ (unmarshal_all-On is) (λ rs. Keeps-pure (r ∷ rs)))

  pub query_idle_bucket-On : (b : String) → Keeps On (query_idle_bucket repo b)
  unfolding query_idle_bucket
  query_idle_bucket-On b = search (keeps_rules, query_idle-On, unmarshal_all-On)

  assigned-On : (r : Result (Unit {0})) → Keeps On (assigned repo r)
  unfolding assigned
  assigned-On (ok u) = search keeps_rules
  assigned-On (err e) = search keeps_rules

  -- Delete, for what survives the removal of a runner.
  pub delete-On :
      (id : String)
      → ((t : Table) → P t → P (apply_write (remove id) t))
      → Keeps On (delete repo id)
  unfolding delete
  delete-On id step = Keeps-wrapping _ _ (record {
    at = λ w h. Commit-keeps P (λ _. step (table w) h) h (law.dynamo.delete_item_commits id w);
  })

  registered-On : (id url : String) (r : Result (Unit {0})) → Keeps On (registered repo id url r)
  unfolding registered
  registered-On id url (ok u) = search keeps_rules
  registered-On id url (err e) = search (keeps_rules, find_by_id-On)

  module _
      (step : (r : Runner) (t : Table)
        → r.current_session_id ≡ ""
        → (r.idle_bucket == "") ≡ false
        → P t
        → accepts t (create r) ≡ true
        → P (apply_write (create r) t)) where
    put_item-On :
        (r : Runner) (i : I)
        → r.current_session_id ≡ ""
        → (r.idle_bucket == "") ≡ false
        → repo.marshal_map r ≡ ok i
        → Keeps On (repo.client.put_item i (attribute_not_exists runner_id_attribute))
    put_item-On r i idle named marshalled = record {
      at = λ w h.
          let e = law.marshal_row r i marshalled in
          Commit-keeps P (λ held. rw e (step r (table w) idle named h (rw e at held))) h
            (law.dynamo.put_item_commits i (attribute_not_exists runner_id_attribute) w);
    }

    -- Register, for what survives a new idle runner.
    pub register-On : (id url : String) → Keeps On (register repo id url)
    unfolding register
    register-On id url = Keeps-if (url == "") _ _ (Keeps-raise _) (
        Keeps-bind-named _ bucket_fn-On law.bucket_named (λ b named.
          Keeps-bind-wrapping_lift _ _ _ (λ i e.
            Keeps-bind _ _ (Keeps-attempt _ (put_item-On _ i refl named e))
              (registered-On id url))))

  module _ (sid : String)
      (step : (id : String) (t : Table)
        → P t
        → accepts t (assign id sid) ≡ true
        → P (apply_write (assign id sid) t)) where
    update_item-On :
        (id : String)
        → Keeps On
            (repo.client.update_item id (assignment sid) (attribute_exists idle_bucket_attribute))
    update_item-On id = record {
      at = λ w h. Commit-keeps P (step id (table w) h) h (
          law.dynamo.update_item_commits id (assignment sid)
            (attribute_exists idle_bucket_attribute) w);
    }

    assign_session-On : (id : String) → Keeps On (assign_session repo id sid)
    unfolding assign_session
    assign_session-On id = search (keeps_rules, update_item-On, assigned-On)

    after_assign-On :
        (r : Runner) (rest : Eff W Pass) (x : Result (Unit {0}))
        → Keeps On rest
        → Keeps On (after_assign repo sid r rest x)
    unfolding after_assign
    after_assign-On r rest (ok u) k = search keeps_rules
    after_assign-On r rest (err e) k = search keeps_rules

    try_each-On :
        (rs : List Runner) (b : Bool) (tried : List String)
        → Keeps On (try_each repo sid rs b tried)
    unfolding try_each
    try_each-On [] b tried = search keeps_rules
    try_each-On (r ∷ rs) b tried = elim (Bool-cases (seen tried r.runner_id)) [
      | inl e ↦ rw (e, try_each) (try_each-On rs b tried)
      | inr e ↦
          rw (e, try_each)
            (Keeps-bind _ _ (Keeps-attempt _ (assign_session-On r.runner_id))
              (λ x. after_assign-On r _ x (try_each-On rs true (r.runner_id ∷ tried))))
    ]

    next_round-On :
        (again : List String → Eff W (Option Runner)) (p : Pass)
        → ((tried : List String) → Keeps On (again tried))
        → Keeps On (next_round repo again p)
    unfolding next_round
    next_round-On again (acquired r) k = search keeps_rules
    next_round-On again (passed false tried) k = search keeps_rules
    next_round-On again (passed true tried) k = k tried

    round-On :
        (bucket : String) (tried : List String) (again : List String → Eff W (Option Runner))
        (rs : List Runner)
        → ((tried : List String) → Keeps On (again tried))
        → Keeps On (round repo sid bucket tried again rs)
    unfolding round
    round-On bucket tried again [] k = search keeps_rules
    round-On bucket tried again (r ∷ rs) k =
        Keeps-bind _ _ (shuffle-On (r ∷ rs))
          (λ ss. Keeps-bind _ _ (try_each-On ss false tried) (λ p. next_round-On again p k))

    acquire_loop-On :
        (fuel : ℕ) (bucket : String) (tried : List String)
        → Keeps On (acquire_loop repo fuel sid bucket tried)
    unfolding acquire_loop
    acquire_loop-On zero bucket tried = search keeps_rules
    acquire_loop-On (suc fuel) bucket tried =
        Keeps-bind _ _ (query_idle_bucket-On bucket)
          (λ rs. round-On bucket tried _ rs (λ t. acquire_loop-On fuel bucket t))

    -- AcquireIdle, for what survives the assignment of an idle runner.
    pub acquire_idle-On : (fuel bucket : ℕ) → Keeps On (acquire_idle repo fuel sid bucket)
    unfolding acquire_idle
    acquire_idle-On fuel bucket = acquire_loop-On fuel _ []
