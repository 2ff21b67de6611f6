-- ===== src/Presenter/Poll/Available.antt =====
-- DynamoDB while it is available and its reads are up to date: what each call answers, as its
-- documentation has it. `query_items` are the items of a partition under a prefix of the sort key.
use text.Mathlib.Text.{starts_with}
use cli_demo.Prelude.{
  ℕ, String, ◌≡◌, Bool, true, false, not, ◌&&◌, ◌||◌, List, [], ◌∷◌, Option, some, ◌==◌, string_eq,
  if◌then◌else◌,
}
use cli_demo.Prelude.Dict.{Dict, lookup}
use cli_demo.GoError.{Error, plain, conditional_check_failed, transaction_canceled}
use cli_demo.Effect.{ok, err}
use cli_demo.Effect.Answers.{Answers}
use cli_demo.Presenter.Poll.Rows.{
  Row, meta, Key, key_eq, Condition, Write, put, delete, update, Table, Attribute, text_value,
  holds, all_hold, apply_all,
}
use cli_demo.Presenter.Poll.{Store}

abbrev pub under : String → String → Key → Bool
under pid prefix k = k.poll_id == pid && starts_with k.connection_id prefix

unfoldable pub query_items : String → String → Table → List (Dict String Attribute)
query_items pid prefix [] = []
query_items pid prefix ((k, r) ∷ t) =
    let rest = query_items pid prefix t in
    if under pid prefix k then (("connectionId", text_value k.connection_id) ∷ []) ∷ rest else rest

-- The reason code of one write of a canceled transaction.
unfoldable pub code_of : Table → Write → Option String
code_of t (put k r c) = if holds t (put k r c) then some "None" else some "ConditionalCheckFailed"
code_of t (delete k c) = if holds t (delete k c) then some "None" else some "ConditionalCheckFailed"
code_of t (update k a) = if holds t (update k a) then some "None" else some "ValidationError"

unfoldable pub cancel_codes : Table → List Write → List (Option String)
cancel_codes t [] = []
cancel_codes t (w ∷ ws) = code_of t w ∷ cancel_codes t ws

abbrev pub key_of : Write → Key
key_of (put k r c) = k
key_of (delete k c) = k
key_of (update k a) = k

unfoldable pub writes_to : Key → List Write → Bool
writes_to k [] = false
writes_to k (w ∷ ws) = (k == key_of w) || writes_to k ws

-- No two writes of a transaction are on one item.
unfoldable pub distinct : List Write → Bool
distinct [] = true
distinct (w ∷ ws) = not (writes_to (key_of w) ws) && distinct ws

-- The answer to a transaction with two writes on one item.
abbrev pub validation_exception : Error
validation_exception =
    plain "ValidationException: Transaction request cannot include multiple operations on one item"

pub record IsAvailable {W : Type 0} (st : Store W) (table : W → Table) : Type 0 where
  pub put_item_answers :
      (k : Key) (r : Row) (c : Condition) (t : Table)
      → Answers table
          (st.client.put_item k r c)
          t
          (if holds t (put k r c) then ok tt else err conditional_check_failed)
          (if holds t (put k r c) then apply_all (put k r c ∷ []) t else t)
  pub get_item_answers :
      (k : Key) (t : Table) → Answers table (st.client.get_item k) t (ok (lookup k t)) t
  pub query_answers :
      (pid prefix : String) (t : Table)
      → Answers table (st.client.query pid prefix) t (ok (query_items pid prefix t)) t
  pub transact_answers :
      (ws : List Write) (t : Table)
      → distinct ws ≡ true
      → Answers table
          (st.client.transact_write_items ws)
          t
          (if all_hold t ws then ok tt else err (transaction_canceled (cancel_codes t ws)))
          (if all_hold t ws then apply_all ws t else t)
  pub transact_rejects :
      (ws : List Write) (t : Table)
      → distinct ws ≡ false
      → Answers table (st.client.transact_write_items ws) t (err validation_exception) t
  -- a clock, here one that stands still, and marshalling that succeeds on META records
  pub clock : ℕ
  pub now_answers : (t : Table) → Answers table st.now t (ok clock) t
  pub marshal_meta : (m : _) → st.marshal_map m ≡ ok (meta m)
  pub unmarshal_meta : (m : _) → st.unmarshal_map (meta m) ≡ ok m
