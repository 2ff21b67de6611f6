-- ===== src/Presenter/Poll/Memory.antt =====
-- A poll_votes table in memory: a client that meets what the poll theorems assume of DynamoDB.
use cli_demo.Prelude.{
  refl, ◌≡◌, true, false, not, List, [], ◌∷◌, if◌then◌else◌, Bool-cases, inl, inr, arith,
}
use cli_demo.Prelude.Dict.{lookup}
use cli_demo.GoError.{plain, conditional_check_failed, transaction_canceled}
use cli_demo.Effect.Commit.{Commit, committed, refused}
use cli_demo.Effect.{Result, ok, err}
use cli_demo.Effect.Answers.{Answers}
use cli_demo.Presenter.Poll.Rows.{
  MetaRecord, Row, meta, ballot, Key, key_eq, Condition, Write, put, Table, Client, holds, all_hold,
  apply_all,
}
use cli_demo.Presenter.Poll.{Store}
use cli_demo.Presenter.Poll.Available.{
  query_items, cancel_codes, distinct, validation_exception, IsAvailable,
}
use cli_demo.Presenter.Poll.Exact.{IsLawful}

abbrev unmarshal : Row → Result MetaRecord
unmarshal (meta m) = ok m
unmarshal (ballot n) = err (plain "not a META record")

abbrev pub memory_client : Client Table
memory_client = record {
  put_item = λ k r c t.
      if holds t (put k r c)
      then (ok tt, apply_all (put k r c ∷ []) t)
      else (err conditional_check_failed, t);
  get_item = λ k t. (ok (lookup k t), t);
  query = λ pid prefix t. (ok (query_items pid prefix t), t);
  transact_write_items = λ ws t.
      if not (distinct ws)
      then (err validation_exception, t)
      else if all_hold t ws
      then (ok tt, apply_all ws t)
      else (err (transaction_canceled (cancel_codes t ws)), t);
}

abbrev pub memory : Store Table
memory = record {
  client = memory_client;
  now = λ t. (ok 1000, t);
  marshal_map = λ m. ok (meta m);
  unmarshal_map = unmarshal;
}

commits :
    (ws : List Write) (t : Table)
    → let r = memory_client.transact_write_items ws t in
      Commit t r.1 (all_hold t ws) (apply_all ws t) r.0
commits ws t = elim (Bool-cases (distinct ws)) [
  | inl d ↦ elim (Bool-cases (all_hold t ws)) [
    | inl e ↦ rw (d, e) (committed refl refl)
    | inr e ↦ rw (d, e) (refused _ refl refl)
  ]
  | inr d ↦ rw d (refused _ refl refl)
]

put_commits :
    (k : Key) (r : Row) (c : Condition) (t : Table)
    → let q = memory_client.put_item k r c t in
      Commit t q.1 (all_hold t (put k r c ∷ [])) (apply_all (put k r c ∷ []) t) q.0
unfolding all_hold
put_commits k r c t = elim (Bool-cases (holds t (put k r c))) [
  | inl e ↦ rw e (committed refl refl)
  | inr e ↦ rw e (refused _ refl refl)
]

pub memory-IsLawful : IsLawful memory (λ t. t) (λ t. false)
memory-IsLawful = record {
  dynamo = record {
    put_item_commits = λ k r c t s. (refl, put_commits k r c t);
    get_item_reads = λ k t s. (refl, refl);
    query_reads = λ p prefix t s. (refl, refl);
    transact_commits = λ ws t s. (refl, commits ws t);
  };
  now_reads = λ t s. (refl, refl);
  marshal_meta = λ m r e. ground arith;
}

put_answers :
    (k : Key) (r : Row) (c : Condition) (t : Table)
    → Answers
        (λ u. u)
        (memory_client.put_item k r c)
        t
        (if holds t (put k r c) then ok tt else err conditional_check_failed)
        (if holds t (put k r c) then apply_all (put k r c ∷ []) t else t)
put_answers k r c t = record { result = λ w e. ground arith; after = λ w e. ground arith }

transact_answers :
    (ws : List Write) (t : Table)
    → distinct ws ≡ true
    → Answers
        (λ u. u)
        (memory_client.transact_write_items ws)
        t
        (if all_hold t ws then ok tt else err (transaction_canceled (cancel_codes t ws)))
        (if all_hold t ws then apply_all ws t else t)
transact_answers ws t d = record { result = λ w e. ground arith; after = λ w e. ground arith }

transact_rejects :
    (ws : List Write) (t : Table)
    → distinct ws ≡ false
    → Answers (λ u. u) (memory_client.transact_write_items ws) t (err validation_exception) t
transact_rejects ws t d = record { result = λ w e. ground arith; after = λ w e. ground arith }

unfoldable pub memory-IsAvailable : IsAvailable memory (λ t. t)
unfolding put_answers transact_answers transact_rejects
memory-IsAvailable = record {
  put_item_answers = put_answers;
  get_item_answers = λ k t. record { result = λ w e. rw e; after = λ w e. e };
  query_answers = λ p prefix t. record { result = λ w e. rw e; after = λ w e. e };
  transact_answers = transact_answers;
  transact_rejects = transact_rejects;
  clock = 1000;
  now_answers = λ t. record { result = λ w e. refl; after = λ w e. e };
  marshal_meta = λ m. refl;
  unmarshal_meta = λ m. refl;
}
