-- ===== src/Presenter/Messages.antt =====
-- presenter/cmd/message/main.go: the messages of a WebSocket connection, dispatched to the handlers.
pub mod Polls
pub mod Frames
use cli_demo.Prelude.{
  ℕ, String, Bool, true, false, not, ◌||◌, List, [], ◌∷◌, Option, none, some, ◌==◌, string_eq,
  nat_eq, if◌then◌else◌,
}
use cli_demo.Prelude.Int.{ℤ, pos}
use cli_demo.GoError.{
  Error, wrap, error_text, is_error, max_choices_exceeded, duplicate_vote, vote_not_found,
  invalid_choice, poll_not_found,
}
use cli_demo.Prelude.Dict.{Dict}
use cli_demo.Effect.{Result, Eff, pure, lift, or_return}
use cli_demo.Presenter.Connection.{Connection}
use cli_demo.Presenter.Poll.{PollState}

abbrev pub room : String
room = "default"

-- incomingMessage, as json.Unmarshal leaves it: a missing field has its type's zero value.
pub record IncomingMessage : Type 0 where
  pub type_name : String
  pub page : ℤ
  pub instruction : String
  pub placeholder : String
  pub poll_id : String
  -- `none` is a nil slice
  pub options : Option (List String)
  pub max_choices : ℤ
  pub choice : String
  pub from : String
  pub to : String

-- pollStateResponse, pollErrorResponse, slideSyncResponse and errorResponse
pub data Reply : Type 0 where
  poll_state : PollState → Reply
  poll_error : String → String → Dict String ℤ → List String → Reply
  slide_sync : ℤ → Reply
  error_reply : String → Reply

-- events.APIGatewayProxyResponse, with the error beside it.
pub record Response : Type 0 where
  pub status_code : ℕ
  pub error : Option Error

-- The request: its connection, its domain and stage, and the body.
pub record Request : Type 0 where
  pub connection_id : String
  pub domain_name : String
  pub stage : String
  pub body : String

pub record HandleDeps (W : Type 0) : Type 0 where
  pub slide_sync_handle : String → String → ℤ → Eff W (Unit {0})
  pub hands_on_handle : String → String → String → String → Eff W (Unit {0})
  pub viewer_count_handle : String → String → Eff W (Unit {0})
  pub send : String → String → String → Eff W (Unit {0})
  pub send_to_one : String → String → String → Eff W (Unit {0})

pub record MessageHandler (W : Type 0) : Type 0 where
  pub poll_get : String → String → Option (List String) → ℤ → Bool → Eff W PollState
  pub poll_vote : String → String → String → Eff W (Unit {0})
  pub poll_unvote : String → String → String → Eff W (Unit {0})
  pub poll_switch : String → String → String → String → Eff W (Unit {0})
  -- no nil connection, as the handler relies on
  pub conn_get : String → String → Eff W Connection
  pub get_state : String → Eff W ℤ
  pub new_deps : String → String → HandleDeps W
  -- encoding/json
  pub json_unmarshal : String → Result IncomingMessage
  pub json_marshal : Reply → Result String

unfoldable pub is_poll_business_error : Error → Bool
is_poll_business_error e =
    is_error max_choices_exceeded e
    || is_error duplicate_vote e
    || is_error vote_not_found e
    || is_error invalid_choice e
    || is_error poll_not_found e

-- len(options) == 0
abbrev pub is_empty : Option (List String) → Bool
is_empty none = true
is_empty (some []) = true
is_empty (some (x ∷ xs)) = false

abbrev pub is_zero : ℤ → Bool
is_zero (pos n) = n == 0
is_zero n = false

module _ {W : Type 0} where
  unfoldable pub respond : ℕ → Eff W Response
  respond n = pure (record { status_code = n; error = none })

  unfoldable pub fail : ℕ → String → Error → Eff W Response
  fail n m e = pure (record { status_code = n; error = some (wrap m e) })

module _ {W : Type 0} (h : MessageHandler W) where
  open h use {
    poll_get, poll_vote, poll_unvote, poll_switch, conn_get, get_state, new_deps, json_unmarshal,
    json_marshal,
  }

  unfoldable pub send_error : String → String → HandleDeps W → Eff W Response
  send_error id text deps =
      or_return (lift (json_marshal (error_reply text))) (fail 500 "marshal error") (λ payload.
        or_return (deps.send_to_one room id payload) (fail 500 "send error") (λ _. respond 200))

  unfoldable pub send_poll_state : String → PollState → HandleDeps W → Eff W Response
  send_poll_state id state deps =
      or_return (lift (json_marshal (poll_state state))) (fail 500 "marshal poll_state") (λ payload.
        or_return (deps.send_to_one room id payload) (fail 500 "send poll_state")
          (λ _. respond 200))

  unfoldable pub broadcast_poll_state : PollState → HandleDeps W → Eff W Response
  broadcast_poll_state state deps =
      or_return (lift (json_marshal (poll_state state))) (fail 500 "marshal poll_state") (λ payload.
        or_return (deps.send room payload "") (fail 500 "broadcast poll_state") (λ _. respond 200))

  unfoldable pub refresh_and_broadcast_poll : String → String → HandleDeps W → Eff W Response
  refresh_and_broadcast_poll pid visitor deps =
      or_return (poll_get pid visitor none (pos 0) false) (fail 500 "refresh poll state")
        (λ state. broadcast_poll_state state deps)

  unfoldable pub handle_poll_error :
      String → String → String → HandleDeps W → Error → Eff W Response
  handle_poll_error id pid visitor deps e =
      if not (is_poll_business_error e)
      then fail 500 "poll operation" e
      else if is_error poll_not_found e
      then send_error id (error_text e) deps
      else or_return (poll_get pid visitor none (pos 0) false)
          (fail 500 "get poll state for error response")
          (λ state.
            or_return
              (lift (json_marshal (poll_error pid (error_text e) state.votes state.my_choices)))
              (fail 500 "marshal poll_error")
              (λ payload.
                or_return (deps.send_to_one room id payload) (fail 500 "send poll_error")
                  (λ _. respond 200)))

  unfoldable pub handle_slide_sync : String → IncomingMessage → HandleDeps W → Eff W Response
  handle_slide_sync id msg deps =
      or_return (deps.slide_sync_handle room id msg.page) (λ e. send_error id (error_text e) deps)
        (λ _. respond 200)

  unfoldable pub handle_hands_on : String → IncomingMessage → HandleDeps W → Eff W Response
  handle_hands_on id msg deps =
      or_return (deps.hands_on_handle room id msg.instruction msg.placeholder)
        (λ e. send_error id (error_text e) deps) (λ _. respond 200)

  unfoldable pub handle_viewer_count : String → HandleDeps W → Eff W Response
  handle_viewer_count id deps =
      or_return (deps.viewer_count_handle room id) (fail 500 "viewer_count") (λ _. respond 200)

  unfoldable pub handle_get_state : String → HandleDeps W → Eff W Response
  handle_get_state id deps = or_return (get_state room) (fail 500 "get state") (λ page.
      or_return (lift (json_marshal (slide_sync page))) (fail 500 "marshal slide_sync") (λ payload.
        or_return (deps.send_to_one room id payload) (fail 500 "send slide_sync")
          (λ _. respond 200)))

  unfoldable pub handle_poll_open : String → IncomingMessage → HandleDeps W → Eff W Response
  handle_poll_open id msg deps =
      if (msg.poll_id == "") || is_empty msg.options || is_zero msg.max_choices
      then send_error id "pollId, options, and maxChoices are required" deps
      else or_return (conn_get room id) (fail 500 "get connection") (λ conn.
        if not (conn.role == "presenter")
        then send_error id "only presenter can open a poll" deps
        else or_return (poll_get msg.poll_id id msg.options msg.max_choices true)
            (fail 500 "poll_open") (λ state. broadcast_poll_state state deps))

  unfoldable pub handle_poll_get : String → IncomingMessage → HandleDeps W → Eff W Response
  handle_poll_get id msg deps =
      if msg.poll_id == ""
      then send_error id "pollId is required" deps
      else or_return (conn_get room id) (fail 500 "get connection") (λ conn.
        or_return (poll_get msg.poll_id id msg.options msg.max_choices (conn.role == "presenter"))
          (λ e.
            if is_poll_business_error e
            then send_error id (error_text e) deps
            else fail 500 "poll_get" e)
          (λ state. send_poll_state id state deps))

  unfoldable pub handle_poll_vote : String → IncomingMessage → HandleDeps W → Eff W Response
  handle_poll_vote id msg deps =
      if (msg.poll_id == "") || (msg.choice == "")
      then send_error id "pollId and choice are required" deps
      else or_return (poll_vote msg.poll_id id msg.choice)
          (handle_poll_error id msg.poll_id id deps)
          (λ _. refresh_and_broadcast_poll msg.poll_id id deps)

  unfoldable pub handle_poll_unvote : String → IncomingMessage → HandleDeps W → Eff W Response
  handle_poll_unvote id msg deps =
      if (msg.poll_id == "") || (msg.choice == "")
      then send_error id "pollId and choice are required" deps
      else or_return (poll_unvote msg.poll_id id msg.choice)
          (handle_poll_error id msg.poll_id id deps)
          (λ _. refresh_and_broadcast_poll msg.poll_id id deps)

  unfoldable pub handle_poll_switch : String → IncomingMessage → HandleDeps W → Eff W Response
  handle_poll_switch id msg deps =
      if (msg.poll_id == "") || (msg.from == "") || (msg.to == "")
      then send_error id "pollId, from, and to are required" deps
      else if msg.from == msg.to
      then send_error id "from and to must be different" deps
      else or_return (poll_switch msg.poll_id id msg.from msg.to)
          (handle_poll_error id msg.poll_id id deps)
          (λ _. refresh_and_broadcast_poll msg.poll_id id deps)

  -- The switch over the type of the message.
  unfoldable pub dispatch : String → HandleDeps W → IncomingMessage → Eff W Response
  dispatch id deps msg =
      if msg.type_name == "slide_sync"
      then handle_slide_sync id msg deps
      else if msg.type_name == "hands_on"
      then handle_hands_on id msg deps
      else if msg.type_name == "viewer_count"
      then handle_viewer_count id deps
      else if msg.type_name == "get_state"
      then handle_get_state id deps
      else if msg.type_name == "poll_open"
      then handle_poll_open id msg deps
      else if msg.type_name == "poll_get"
      then handle_poll_get id msg deps
      else if msg.type_name == "poll_vote"
      then handle_poll_vote id msg deps
      else if msg.type_name == "poll_unvote"
      then handle_poll_unvote id msg deps
      else if msg.type_name == "poll_switch"
      then handle_poll_switch id msg deps
      else send_error id "unknown message type" deps

  unfoldable pub handle : Request → Eff W Response
  handle req =
      let deps = new_deps req.domain_name req.stage in
      or_return (lift (json_unmarshal req.body)) (fail 400 "unmarshal body")
        (λ msg. dispatch req.connection_id deps msg)
