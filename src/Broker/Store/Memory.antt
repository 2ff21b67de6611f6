-- ===== src/Broker/Store/Memory.antt =====
-- A runner table in memory: DynamoDB as its documentation has it, with no failure of its own.
use cli_demo.Prelude.{
  arith, ap, ℕ, zero, suc, ◌≡◌, refl, sym, Bool, true, false, List, [], ◌∷◌, ◌==◌, string_eq,
  nat_eq, if◌then◌else◌,
}
use cli_demo.Prelude.Dict.{lookup}
use cli_demo.GoError.{Error, Sentinel, conditional_check_failed, is_error}
use cli_demo.Effect.{Result, ok, err, Eff}
use cli_demo.Effect.Commit.{Commit, committed, refused}
use cli_demo.Broker.Store.Rows.{
  Runner, Table, Write, put, update, remove, accepts, apply_write, Client,
}
use cli_demo.Broker.Store.{DynamoRepository}
use cli_demo.Broker.Store.Invariants.{IsLawful}
use cli_demo.Broker.Store.Acquired.{IsRefusing}

abbrev pub rows_where : (Runner → Bool) → ℕ → Table → List Runner
rows_where p n [] = []
rows_where p zero (row ∷ t) = []
rows_where p (suc n) ((id, r) ∷ t) = if p r then r ∷ rows_where p n t else rows_where p (suc n) t

abbrev pub answer : Bool → Table → Table → Result (Unit {0}) × Table
answer true applied t = (ok tt, applied)
answer false applied t = (err conditional_check_failed, t)

abbrev pub request : Write → Eff Table (Unit {0})
request x t = answer (accepts t x) (apply_write x t) t

abbrev pub memory_client : Client Table Runner
memory_client = record {
  put_item = λ r c. request (put r c);
  get_item = λ id t. (ok (lookup id t), t);
  update_item = λ id acts c. request (update id acts c);
  delete_item = λ id. request (remove id);
  query_idle = λ b n t. (ok (rows_where (λ r. r.idle_bucket == b) n t), t);
  query_session = λ s n t. (ok (rows_where (λ r. r.current_session_id == s) n t), t);
}

abbrev pub memory : DynamoRepository Table Runner
memory = record {
  client = memory_client;
  bucket_fn = λ t. (ok "bucket-0", t);
  marshal_map = λ r. ok r;
  unmarshal_map = λ r. ok r;
  shuffle = λ rs t. (ok rs, t);
}

answer-Commit :
    (b : Bool) (applied t : Table)
    → Commit t (answer b applied t).1 b applied (answer b applied t).0
answer-Commit true applied t = committed refl refl
answer-Commit false applied t = refused conditional_check_failed refl refl

ok-injective : {A : Type 0} {a b : A} → ◌≡◌ {A = Result A} (ok a) (ok b) → a ≡ b
ok-injective e = cc e

pub memory-IsLawful : IsLawful memory (λ r. r) (λ t. t)
memory-IsLawful = record {
  dynamo = record {
    put_item_commits = λ r c t. answer-Commit _ _ t;
    update_item_commits = λ id acts c t. answer-Commit _ _ t;
    delete_item_commits = λ id t. answer-Commit _ _ t;
    get_item_reads = λ id t. refl;
    query_idle_reads = λ b n t. refl;
    query_session_reads = λ s n t. refl;
  };
  bucket_reads = λ t. refl;
  shuffle_reads = λ rs t. refl;
  bucket_named = λ t b e. rw (← ok-injective e) refl;
  marshal_row = λ r i e. sym (ok-injective e);
}

answer-refuses :
    (b : Bool) (applied t : Table) (e : Error)
    → (answer b applied t).0 ≡ err e
    → (answer b applied t).1 ≡ t
answer-refuses true applied t e h = absurd (ground (arith, h))
answer-refuses false applied t e h = refl

err-injective : {A : Type 0} {a b : Error} → ◌≡◌ {A = Result A} (err a) (err b) → a ≡ b
err-injective e = cc e

answer-not_sentinel :
    (b : Bool) (applied t : Table) (e : Error)
    → (answer b applied t).0 ≡ err e
    → (s : Sentinel) → is_error s e ≡ false
answer-not_sentinel true applied t e h s = absurd (ground (arith, h))
answer-not_sentinel false applied t e h s = ap (is_error s) (sym (err-injective h))

pub memory-IsRefusing : IsRefusing memory (λ t. t)
memory-IsRefusing = record {
  condition_refuses = λ id acts cond t e h c. answer-refuses _ _ t e h;
  not_sentinel = λ id acts cond t e h. answer-not_sentinel _ _ t e h;
}
