-- ===== src/Presenter/Messages/Frames.antt =====
-- presenter/cmd/message/main.go: what a message keeps, for whatever the services it reaches keep.
use cli_demo.Prelude.{String, Bool, true, false, not, Option, List, ◌==◌, string_eq, if◌then◌else◌}
use cli_demo.Prelude.Int.{ℤ}
use cli_demo.GoError.{Error}
use cli_demo.Effect.{or_return}
use cli_demo.Effect.Keeps.{Keeps, Keeps-if, Keeps-or_return}
use cli_demo.Effect.Ends.{Ends, AnyOf, Keeps-or_return_ends}
use cli_demo.Presenter.Poll.{PollState}
use cli_demo.Presenter.Messages.{
  room, IncomingMessage, HandleDeps, MessageHandler, Request, fail, send_error, send_poll_state,
  broadcast_poll_state, refresh_and_broadcast_poll, handle_slide_sync, handle_hands_on,
  handle_viewer_count, handle_get_state, handle_poll_open, handle_poll_get, handle_poll_vote,
  handle_poll_unvote, handle_poll_switch, handle_poll_error, dispatch, handle,
}
use cli_demo.Presenter.Messages.Polls as Polls
use cli_demo.Presenter.Messages.Polls.{
  Keeps-fail, reply_keeps_rules, send_error-keeps, handle_poll_error-keeps,
}

-- What the calls that a connection's messages cause keep. `Allows` says which role the connection may
-- have, as far as the polls depend on it.
pub record IsFramed {W : Type 0} (h : MessageHandler W) (deps : HandleDeps W) (P : W → Type 0)
    (Allows : Bool → Type 0) (id : String) : Type 0 where
  pub answers : (room i payload : String) → Keeps P (deps.send_to_one room i payload)
  pub broadcasts : (room payload exclude : String) → Keeps P (deps.send room payload exclude)
  pub slides : (page : ℤ) → Keeps P (deps.slide_sync_handle room id page)
  pub instructs : (i p : String) → Keeps P (deps.hands_on_handle room id i p)
  pub counts : (room : String) → Keeps P (deps.viewer_count_handle room id)
  pub state : (room : String) → Keeps P (h.get_state room)
  pub conn : (room i : String) → Keeps P (h.conn_get room i)
  pub role :
      (room i : String)
      → Ends P (h.conn_get room i) (λ conn w. Allows (conn.role == "presenter")) AnyOf
  pub allows_viewer : Allows false
  pub gets :
      (pid visitor : String) (options : Option (List String)) (n : ℤ) (b : Bool)
      → Allows b
      → Keeps P (h.poll_get pid visitor options n b)
  pub votes : (pid choice : String) → Keeps P (h.poll_vote pid id choice)
  pub unvotes : (pid choice : String) → Keeps P (h.poll_unvote pid id choice)
  pub switches : (pid from to : String) → Keeps P (h.poll_switch pid id from to)

module _ {W : Type 0} (h : MessageHandler W) (deps : HandleDeps W) (P : W → Type 0)
    (Allows : Bool → Type 0) (id : String) (frame : IsFramed h deps P Allows id) where
  open frame use {
    answers, broadcasts, slides, instructs, counts, state, conn, role, allows_viewer, gets, votes,
    unvotes, switches,
  }

  reads :
      (pid visitor : String) (options : Option (List String)) (n : ℤ)
      → Keeps P (h.poll_get pid visitor options n false)
  reads pid visitor options n = gets pid visitor options n false allows_viewer

  error-keeps : (s : String) → Keeps P (send_error h id s deps)
  error-keeps s = send_error-keeps h deps P answers id s

  handle_slide_sync-keeps : (msg : IncomingMessage) → Keeps P (handle_slide_sync h id msg deps)
  unfolding handle_slide_sync
  handle_slide_sync-keeps msg = search (reply_keeps_rules, slides, error-keeps)

  handle_hands_on-keeps : (msg : IncomingMessage) → Keeps P (handle_hands_on h id msg deps)
  unfolding handle_hands_on
  handle_hands_on-keeps msg = search (reply_keeps_rules, instructs, error-keeps)

  handle_viewer_count-keeps : Keeps P (handle_viewer_count h id deps)
  unfolding handle_viewer_count
  handle_viewer_count-keeps = search (reply_keeps_rules, counts)

  handle_get_state-keeps : Keeps P (handle_get_state h id deps)
  unfolding handle_get_state
  handle_get_state-keeps = search (reply_keeps_rules, state, answers)

  send_poll_state-keeps : (s : PollState) → Keeps P (send_poll_state h id s deps)
  unfolding send_poll_state
  send_poll_state-keeps s = search (reply_keeps_rules, answers)

  broadcast_poll_state-keeps : (s : PollState) → Keeps P (broadcast_poll_state h s deps)
  broadcast_poll_state-keeps s =
      Polls.broadcast_poll_state-keeps h deps P answers reads broadcasts s

  refresh-keeps : (pid visitor : String) → Keeps P (refresh_and_broadcast_poll h pid visitor deps)
  refresh-keeps pid visitor = Polls.refresh-keeps h deps P answers reads broadcasts pid visitor

  poll_error-keeps : (pid : String) (e : Error) → Keeps P (handle_poll_error h id pid id deps e)
  poll_error-keeps pid e = handle_poll_error-keeps h deps P answers reads id pid id e

  opens-keeps :
      (msg : IncomingMessage) (b : Bool)
      → Allows b
      → Keeps P (
          if not b
          then send_error h id "only presenter can open a poll" deps
          else or_return
              (h.poll_get msg.poll_id id msg.options msg.max_choices true)
              (fail 500 "poll_open")
              (λ s. broadcast_poll_state h s deps))
  opens-keeps msg false a = error-keeps _
  opens-keeps msg true a =
      Keeps-or_return _ _ _ (gets _ _ _ _ true a) (Keeps-fail 500 "poll_open")
        broadcast_poll_state-keeps

  handle_poll_open-keeps : (msg : IncomingMessage) → Keeps P (handle_poll_open h id msg deps)
  unfolding handle_poll_open
  handle_poll_open-keeps msg = Keeps-if _ _ _ (error-keeps _) (
      Keeps-or_return_ends _ _ _ _ (conn room id) (role room id) (Keeps-fail 500 "get connection")
        (λ c a. opens-keeps msg (c.role == "presenter") a))

  handle_poll_get-keeps : (msg : IncomingMessage) → Keeps P (handle_poll_get h id msg deps)
  unfolding handle_poll_get
  handle_poll_get-keeps msg = Keeps-if _ _ _ (error-keeps _) (
      Keeps-or_return_ends _ _ _ _ (conn room id) (role room id) (Keeps-fail 500 "get connection")
        (λ c a.
          Keeps-or_return _ _ _ (gets _ _ _ _ _ a) (λ e. search (reply_keeps_rules, error-keeps))
            send_poll_state-keeps))

  handle_poll_vote-keeps : (msg : IncomingMessage) → Keeps P (handle_poll_vote h id msg deps)
  unfolding handle_poll_vote
  handle_poll_vote-keeps msg =
      search (reply_keeps_rules, votes, error-keeps, poll_error-keeps, refresh-keeps) depth 9

  handle_poll_unvote-keeps : (msg : IncomingMessage) → Keeps P (handle_poll_unvote h id msg deps)
  unfolding handle_poll_unvote
  handle_poll_unvote-keeps msg =
      search (reply_keeps_rules, unvotes, error-keeps, poll_error-keeps, refresh-keeps) depth 9

  handle_poll_switch-keeps : (msg : IncomingMessage) → Keeps P (handle_poll_switch h id msg deps)
  unfolding handle_poll_switch
  handle_poll_switch-keeps msg =
      search (reply_keeps_rules, switches, error-keeps, poll_error-keeps, refresh-keeps) depth 9

  pub dispatch-keeps : (msg : IncomingMessage) → Keeps P (dispatch h id deps msg)
  unfolding dispatch
  dispatch-keeps msg =
      search
        (
          Keeps-if, error-keeps, handle_slide_sync-keeps, handle_hands_on-keeps,
          handle_viewer_count-keeps, handle_get_state-keeps, handle_poll_open-keeps,
          handle_poll_get-keeps, handle_poll_vote-keeps, handle_poll_unvote-keeps,
          handle_poll_switch-keeps,
        )
        depth 20

-- A whole request, by the dependencies of its domain and stage.
module _ {W : Type 0} (h : MessageHandler W) (P : W → Type 0) (Allows : Bool → Type 0) where
  pub handle-keeps :
      (req : Request)
      → IsFramed h (h.new_deps req.domain_name req.stage) P Allows req.connection_id
      → Keeps P (handle h req)
  unfolding handle
  handle-keeps req frame =
      search (reply_keeps_rules, dispatch-keeps h _ P Allows req.connection_id frame)
