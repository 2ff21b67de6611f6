-- ===== src/Presenter/Messages/Polls.antt =====
-- presenter/cmd/message/main.go: who may open a poll, and which votes are broadcast.
use cli_demo.Prelude.{ℕ, String, ◌≡◌, false, List, Option, ◌==◌, string_eq}
use cli_demo.Prelude.Int.{ℤ}
use cli_demo.GoError.{Error}
use cli_demo.Effect.Keeps.{Keeps, Keeps-pure, Keeps-if, Keeps-lift, Keeps-or_return}
use cli_demo.Effect.Ends.{Ends, AnyOf, Keeps-or_return_ends}
use cli_demo.Presenter.Messages.{
  room, IncomingMessage, HandleDeps, MessageHandler, respond, fail, send_error, handle_poll_error,
  handle_poll_open, handle_poll_vote, broadcast_poll_state, refresh_and_broadcast_poll,
}
use cli_demo.Presenter.Poll.{PollState}

module _ {W : Type 0} {P : W → Type 0} where
  pub Keeps-respond : (n : ℕ) → Keeps P (respond n)
  unfolding respond
  Keeps-respond n = Keeps-pure _

  pub Keeps-fail : (n : ℕ) (m : String) (e : Error) → Keeps P (fail n m e)
  unfolding fail
  Keeps-fail n m e = Keeps-pure _

pub ruleset reply_keeps_rules = (Keeps-respond, Keeps-fail, Keeps-if, Keeps-or_return, Keeps-lift)

-- The answer to one connection, and reading a poll without opening one, do not change what `P` says.
module _ {W : Type 0} (h : MessageHandler W) (deps : HandleDeps W) (P : W → Type 0)
    (answers : (room id payload : String) → Keeps P (deps.send_to_one room id payload)) where
  pub send_error-keeps : (id s : String) → Keeps P (send_error h id s deps)
  unfolding send_error
  send_error-keeps id s = search (reply_keeps_rules, answers)

  -- Where the sender's connection is not a presenter's, or its lookup fails, a message to open
  -- a poll keeps whatever the lookup and an answer to one connection keep: it neither opens a
  -- poll nor broadcasts.
  pub handle_poll_open-keeps :
      (id : String) (msg : IncomingMessage)
      → Keeps P (h.conn_get room id)
      → Ends P (h.conn_get room id) (λ conn w. (conn.role == "presenter") ≡ false) AnyOf
      → Keeps P (handle_poll_open h id msg deps)
  unfolding handle_poll_open
  handle_poll_open-keeps id msg reads viewer = Keeps-if _ _ _ (send_error-keeps id _) (
      Keeps-or_return_ends (λ conn. (conn.role == "presenter") ≡ false) _ _ _ reads viewer
        (Keeps-fail 500 "get connection") (λ conn denied. rw denied (send_error-keeps id _)))

  module _
      (reads : (pid visitor : String) (options : Option (List String)) (n : ℤ)
        → Keeps P (h.poll_get pid visitor options n false)) where
    pub handle_poll_error-keeps :
        (id pid visitor : String) (e : Error) → Keeps P (handle_poll_error h id pid visitor deps e)
    unfolding handle_poll_error
    handle_poll_error-keeps id pid visitor e =
        search (reply_keeps_rules, answers, send_error-keeps, reads) depth 9

    -- Where the vote fails, a voting message keeps whatever the failing vote, reading a poll
    -- without opening it, and an answer to one connection keep: nothing is broadcast.
    handle_poll_vote-keeps :
        (id : String) (msg : IncomingMessage)
        → Keeps P (h.poll_vote msg.poll_id id msg.choice)
        → Ends P (h.poll_vote msg.poll_id id msg.choice) (λ u w. ⊥) AnyOf
        → Keeps P (handle_poll_vote h id msg deps)
    unfolding handle_poll_vote
    handle_poll_vote-keeps id msg changes fails = Keeps-if _ _ _ (send_error-keeps id _) (
        Keeps-or_return_ends (λ u. ⊥) _ _ _ changes fails
          (handle_poll_error-keeps id msg.poll_id id) (λ u never. absurd never))

    -- A poll that is read and sent to the room.
    module _
        (broadcasts : (room payload exclude : String)
          → Keeps P (deps.send room payload exclude)) where
      pub broadcast_poll_state-keeps : (s : PollState) → Keeps P (broadcast_poll_state h s deps)
      unfolding broadcast_poll_state
      broadcast_poll_state-keeps s = search (reply_keeps_rules, broadcasts)

      pub refresh-keeps :
          (pid visitor : String) → Keeps P (refresh_and_broadcast_poll h pid visitor deps)
      unfolding refresh_and_broadcast_poll
      refresh-keeps pid visitor = search (reply_keeps_rules, reads, broadcast_poll_state-keeps)
