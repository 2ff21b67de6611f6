-- ===== src/Presenter/Poll.antt =====
-- presenter/internal/poll: the poll store (store.go, get.go, vote.go, unvote.go, switch.go). A
-- `Store` holds what the Go struct holds: the DynamoDB client, the clock and the marshalling.
mod Rows
pub mod SortKey
pub mod Tally
pub mod Writes
pub mod Exact
pub mod Available
pub mod Distinct
pub mod Memory
pub mod Outcomes
pub mod Limit
pub mod Race
pub mod Frames
pub use Rows.{
  MetaRecord, Row, meta, ballot, Key, key_eq, Condition, attribute_exists, attribute_not_exists,
  Action, plus_one, minus_one, Write, put, delete, update, Client, Unswept, IsDynamo, Attribute,
  text_value, other_value,
}
unfoldable pub use Rows.{tally, act, act_all, holds, all_hold, apply_write, apply_all}
pub use Rows.{Table}
use cli_demo.Prelude.{
  ℕ, ◌+◌, ◌*◌, String, ◌<>◌, Bool, true, false, not, ◌&&◌, ◌||◌, List, [], ◌∷◌, Option, none, some,
  ◌==◌, string_eq, length, if◌then◌else◌,
}
use cli_demo.Prelude.Int.{ℤ, pos, leb_ℤ}
use cli_demo.Prelude.Dict.{Dict, lookup, insert}
use cli_demo.GoError.{
  Error, sentinel, wrap, invalid_choice, max_choices_exceeded, duplicate_vote, vote_not_found,
  poll_not_found, is_conditional_check_failed, transaction_canceled_reasons,
}
use cli_demo.Effect.{Result, ok, err, Eff, pure, raise, lift, attempt, ◌>>=◌, ◌>>◌, wrapping}
use SortKey.{choice_of}

pub record Store (W : Type 0) : Type 0 where
  pub client : Client W
  pub now : Eff W ℕ
  pub marshal_map : MetaRecord → Result Row
  pub unmarshal_map : Row → Result MetaRecord

pub record PollState : Type 0 where
  pub poll_id : String
  pub options : List String
  pub max_choices : ℤ
  pub votes : Dict String ℤ
  pub my_choices : List String

abbrev pub meta_sk : String
meta_sk = "META"

-- 24 * time.Hour, in seconds.
abbrev pub ttl_duration : ℕ
ttl_duration = 24 * 3600

abbrev pub meta_key : String → Key
meta_key pid = record { poll_id = pid; connection_id = meta_sk }

abbrev pub ballot_key : String → String → String → Key
ballot_key pid visitor choice = record { poll_id = pid; connection_id = visitor <> "#" <> choice }

-- initVotes: every option at zero.
unfoldable pub init_votes : List String → Dict String ℤ
init_votes [] = []
init_votes (o ∷ os) = insert o (pos 0) (init_votes os)

unfoldable pub contains : List String → String → Bool
contains [] c = false
contains (o ∷ os) c = o == c || contains os c

-- The loop over the items of a query: those with a sort key `visitor#choice`.
item_choice : Option Attribute → Option String
item_choice none = none
item_choice (some other_value) = none
item_choice (some (text_value sk)) = choice_of sk

cons_choice : Option String → List String → List String
cons_choice none cs = cs
cons_choice (some c) cs = c ∷ cs

unfoldable pub choices_of : List (Dict String Attribute) → List String
unfolding item_choice cons_choice
choices_of [] = []
choices_of (item ∷ items) =
    cons_choice (item_choice (lookup "connectionId" item)) (choices_of items)

unfoldable pub first_failed : List String → Bool
first_failed [] = false
first_failed (r ∷ rs) = r == "ConditionalCheckFailed"

abbrev pub vote_writes : String → String → String → ℕ → List Write
vote_writes pid visitor choice ttl =
    put (ballot_key pid visitor choice) (ballot ttl) attribute_not_exists
    ∷ update (meta_key pid) (plus_one choice ∷ [])
    ∷ []

abbrev pub unvote_writes : String → String → String → List Write
unvote_writes pid visitor choice =
    delete (ballot_key pid visitor choice) attribute_exists
    ∷ update (meta_key pid) (minus_one choice ∷ [])
    ∷ []

abbrev pub switch_writes : String → String → String → String → ℕ → List Write
switch_writes pid visitor from to ttl =
    delete (ballot_key pid visitor from) attribute_exists
    ∷ put (ballot_key pid visitor to) (ballot ttl) attribute_not_exists
    ∷ update (meta_key pid) (minus_one from ∷ plus_one to ∷ [])
    ∷ []

-- What a failed transaction means to each operation.
unfoldable pub vote_error : Error → Error
vote_error e =
    if first_failed (transaction_canceled_reasons e)
    then sentinel duplicate_vote
    else wrap "transact vote" e

unfoldable pub unvote_error : Error → Error
unvote_error e =
    if first_failed (transaction_canceled_reasons e)
    then sentinel vote_not_found
    else wrap "transact unvote" e

switch_reasons : List String → Error → Error
switch_reasons (a ∷ b ∷ rs) e =
    if a == "ConditionalCheckFailed"
    then sentinel vote_not_found
    else if b == "ConditionalCheckFailed"
    then sentinel duplicate_vote
    else wrap "transact switch" e
switch_reasons _ e = wrap "transact switch" e

unfoldable pub switch_error : Error → Error
unfolding switch_reasons
switch_error e = switch_reasons (transaction_canceled_reasons e) e

module _ {W : Type 0} (st : Store W) where
  open st use {client, now, marshal_map, unmarshal_map}

  found_meta : Option Row → Eff W MetaRecord
  found_meta none = raise (sentinel poll_not_found)
  found_meta (some row) = wrapping "unmarshal meta" (lift (unmarshal_map row))

  unfoldable pub get_meta : String → Eff W MetaRecord
  unfolding found_meta
  get_meta pid = do item ← wrapping "get meta" (client.get_item (meta_key pid)); found_meta item

  unfoldable pub get_my_choices : String → String → Eff W (List String)
  get_my_choices pid visitor = if visitor == "" then pure [] else do
    items ← wrapping "query my choices" (client.query pid (visitor <> "#"))
    pure (choices_of items)

  -- The conditional put of the META record: its failed condition means that the poll is open.
  opened_meta : Result (Unit {0}) → Eff W (Unit {0})
  opened_meta (ok u) = pure tt
  opened_meta (err e) =
      if not (is_conditional_check_failed e) then raise (wrap "put meta" e) else pure tt

  unfoldable pub open_meta : String → List String → ℤ → Eff W (Unit {0})
  unfolding opened_meta
  open_meta pid options max_choices = do
    t ← now
    item ← wrapping "marshal meta" (
        lift (
          marshal_map (record {
            poll_id = pid;
            conn_id = meta_sk;
            options = options;
            max_choices = max_choices;
            votes = init_votes options;
            ttl = t + ttl_duration;
          })))
    put_result ← attempt (client.put_item (meta_key pid) item attribute_not_exists)
    opened_meta put_result

  -- `none` is a nil slice of options.
  open_if : Bool → String → Option (List String) → ℤ → Eff W (Unit {0})
  open_if false pid options max_choices = pure tt
  open_if true pid none max_choices = pure tt
  open_if true pid (some options) max_choices = open_meta pid options max_choices

  unfoldable pub get : String → String → Option (List String) → ℤ → Bool → Eff W PollState
  unfolding open_if
  get pid visitor options max_choices is_presenter = do
    open_if is_presenter pid options max_choices
    m ← get_meta pid
    mine ← get_my_choices pid visitor
    pure (record {
      poll_id = m.poll_id;
      options = m.options;
      max_choices = m.max_choices;
      votes = m.votes;
      my_choices = mine;
    })

  vote_done : Result (Unit {0}) → Eff W (Unit {0})
  vote_done (ok u) = pure tt
  vote_done (err e) = raise (vote_error e)

  -- The last part of Vote: the transaction.
  unfoldable pub cast : String → String → String → Eff W (Unit {0})
  unfolding vote_done
  cast pid visitor choice = do
    t ← now
    r ← attempt (client.transact_write_items (vote_writes pid visitor choice (t + ttl_duration)))
    vote_done r

  -- The first part of Vote: the checks, on what the reads return.
  unfoldable pub may_vote : String → String → String → Eff W (Unit {0})
  may_vote pid visitor choice = do
    m ← get_meta pid
    if not (contains m.options choice) then raise (sentinel invalid_choice) else do
      mine ← get_my_choices pid visitor
      if leb_ℤ m.max_choices (pos (length mine))
          then raise (sentinel max_choices_exceeded)
          else pure tt

  unfoldable pub vote : String → String → String → Eff W (Unit {0})
  vote pid visitor choice = do may_vote pid visitor choice; cast pid visitor choice

  unvote_done : Result (Unit {0}) → Eff W (Unit {0})
  unvote_done (ok u) = pure tt
  unvote_done (err e) = raise (unvote_error e)

  unfoldable pub unvote : String → String → String → Eff W (Unit {0})
  unfolding unvote_done
  unvote pid visitor choice = do
    r ← attempt (client.transact_write_items (unvote_writes pid visitor choice))
    unvote_done r

  switch_done : Result (Unit {0}) → Eff W (Unit {0})
  switch_done (ok u) = pure tt
  switch_done (err e) = raise (switch_error e)

  -- The last part of Switch: the transaction.
  unfoldable pub move : String → String → String → String → Eff W (Unit {0})
  unfolding switch_done
  move pid visitor from to = do
    t ← now
    r ← attempt (client.transact_write_items (switch_writes pid visitor from to (t + ttl_duration)))
    switch_done r

  unfoldable pub switch : String → String → String → String → Eff W (Unit {0})
  switch pid visitor from to = do
    m ← get_meta pid
    if not (contains m.options from) || not (contains m.options to)
        then raise (sentinel invalid_choice)
        else move pid visitor from to
