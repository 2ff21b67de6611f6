-- ===== src/Broker/Store.antt =====
-- broker/store: the runner repository over DynamoDB (repository.go, dynamo.go).
mod Rows
pub mod Invariants
pub mod States
pub mod Acquired
pub mod Termination
pub mod Exclusive
pub mod Memory
pub use Rows.{
  Runner, is_idle, is_busy, Table, Attribute, runner_id_attribute, current_session_id_attribute,
  idle_bucket_attribute, Condition, attribute_exists, attribute_not_exists, Action, set_value,
  remove_value, Write, create, assign, assignment, remove, Client, IsDynamo,
}
unfoldable pub use Rows.{accepts, apply_write}
use cli_demo.Prelude.{
  ℕ, zero, suc, String, ◌<>◌, Bool, true, false, not, ◌||◌, List, [], ◌∷◌, Option, none, some, ◌==◌,
  string_eq, if◌then◌else◌,
}
use cli_demo.Prelude.Bytes.{decimal_text}
use cli_demo.GoError.{
  Error, sentinel, plain, wrap, runner_not_found, no_idle_runner, condition_failed, conflict,
  is_conditional_check_failed, is_error,
}
use cli_demo.Effect.{Result, ok, err, Eff, pure, raise, lift, attempt, ◌>>=◌, ◌>>◌, wrapping}

-- The struct: the client, the source of buckets, marshalling, and the shuffle of math/rand.
pub record DynamoRepository (W I : Type 0) : Type 0 where
  pub client : Client W I
  pub bucket_fn : Eff W String
  pub marshal_map : Runner → Result I
  pub unmarshal_map : I → Result Runner
  pub shuffle : List Runner → Eff W (List Runner)

abbrev pub bucket_count : ℕ
bucket_count = 4

abbrev pub idle_query_limit : ℕ
idle_query_limit = 20

-- fmt.Sprintf("bucket-%d", n)
unfoldable pub bucket_key : ℕ → String
bucket_key n = "bucket-" <> decimal_text n

unfoldable pub default_bucket_fn : {W : Type 0} → (ℕ → Eff W ℕ) → Eff W String
default_bucket_fn int_n = do n ← int_n bucket_count; pure (bucket_key n)

unfoldable pub seen : List String → String → Bool
seen [] id = false
seen (x ∷ xs) id = x == id || seen xs id

-- What a pass over the candidates came to: a runner, or whether a new one was tried and which were.
pub data Pass : Type 0 where
  acquired : Runner → Pass
  passed : Bool → List String → Pass

module _ {W I : Type 0} (repo : DynamoRepository W I) where
  open repo use {client, bucket_fn, marshal_map, unmarshal_map, shuffle}

  found : Option I → Eff W Runner
  found none = raise (sentinel runner_not_found)
  found (some i) = wrapping "unmarshal runner" (lift (unmarshal_map i))

  unfoldable pub find_by_id : String → Eff W Runner
  unfolding found
  find_by_id id = do item ← wrapping "get item" (client.get_item id); found item

  first : List I → Option I
  first [] = none
  first (i ∷ is) = some i

  unfoldable pub find_by_session_id : String → Eff W Runner
  unfolding first found
  find_by_session_id sid = do
    items ← wrapping "query session-index" (client.query_session sid 1)
    found (first items)

  registered : String → String → Result (Unit {0}) → Eff W (Unit {0})
  registered id url (ok u) = pure tt
  registered id url (err e) =
      if not (is_conditional_check_failed e) then raise (wrap "put item" e) else do
        existing ← wrapping "find existing runner" (find_by_id id)
        if not (existing.private_url == url) then raise (sentinel conflict) else pure tt

  unfoldable pub register : String → String → Eff W (Unit {0})
  unfolding registered
  register id url = if url == "" then raise (plain "privateURL must not be empty") else do
    bucket ← bucket_fn
    item ← wrapping "marshal runner" (
        lift (
          marshal_map (record {
            runner_id = id;
            current_session_id = "";
            idle_bucket = bucket;
            private_url = url;
          })))
    r ← attempt (client.put_item item (attribute_not_exists runner_id_attribute))
    registered id url r

  unmarshal_all : List I → Eff W (List Runner)
  unmarshal_all [] = pure []
  unmarshal_all (i ∷ is) = do
    r ← wrapping "unmarshal runner" (lift (unmarshal_map i))
    rs ← unmarshal_all is
    pure (r ∷ rs)

  unfoldable pub query_idle_bucket : String → Eff W (List Runner)
  unfolding unmarshal_all
  query_idle_bucket bucket = do
    items ← wrapping "query idle-index" (client.query_idle bucket idle_query_limit)
    unmarshal_all items

  assigned : Result (Unit {0}) → Eff W (Unit {0})
  assigned (ok u) = pure tt
  assigned (err e) =
      if is_conditional_check_failed e
      then raise (sentinel condition_failed)
      else raise (wrap "update item" e)

  unfoldable pub assign_session : String → String → Eff W (Unit {0})
  unfolding assigned
  assign_session id sid = do
    r ← attempt (client.update_item id (assignment sid) (attribute_exists idle_bucket_attribute))
    assigned r

  -- What follows one attempt to assign: the runner, an error, or the next candidate.
  after_assign : String → Runner → Eff W Pass → Result (Unit {0}) → Eff W Pass
  after_assign sid r rest (ok u) =
      pure (acquired (record r { current_session_id = sid; idle_bucket = "" }))
  after_assign sid r rest (err e) = if not (is_error condition_failed e) then raise e else rest

  -- The loop over the shuffled candidates.
  unfoldable pub try_each : String → List Runner → Bool → List String → Eff W Pass
  unfolding after_assign
  try_each sid [] progressed tried = pure (passed progressed tried)
  try_each sid (r ∷ rs) progressed tried = elim (seen tried r.runner_id) [
    | true ↦ try_each sid rs progressed tried
    | false ↦ do
      x ← attempt (assign_session r.runner_id sid)
      after_assign sid r (try_each sid rs true (r.runner_id ∷ tried)) x
  ]

  next_round : (List String → Eff W (Option Runner)) → Pass → Eff W (Option Runner)
  next_round again (acquired r) = pure (some r)
  next_round again (passed false tried) = raise (sentinel no_idle_runner)
  next_round again (passed true tried) = again tried

  round :
      String
      → String
      → List String
      → (List String → Eff W (Option Runner))
      → List Runner
      → Eff W (Option Runner)
  round sid bucket tried again [] = raise (sentinel no_idle_runner)
  round sid bucket tried again (r ∷ rs) = do
    shuffled ← shuffle (r ∷ rs)
    p ← try_each sid shuffled false tried
    next_round again p

  -- The outer loop, on fuel: `none` means that the fuel ran out.
  unfoldable pub acquire_loop : ℕ → String → String → List String → Eff W (Option Runner)
  unfolding round next_round
  acquire_loop zero sid bucket tried = pure none
  acquire_loop (suc fuel) sid bucket tried = do
    runners ← query_idle_bucket bucket
    round sid bucket tried (λ t. acquire_loop fuel sid bucket t) runners

  unfoldable pub acquire_idle : ℕ → String → ℕ → Eff W (Option Runner)
  acquire_idle fuel sid bucket = acquire_loop fuel sid (bucket_key bucket) []

  unfoldable pub delete : String → Eff W (Unit {0})
  delete id = wrapping "delete item" (client.delete_item id)
