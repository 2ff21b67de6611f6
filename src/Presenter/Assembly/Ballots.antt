-- ===== src/Presenter/Assembly/Ballots.antt =====
-- presenter/cmd/message over presenter/internal/poll: what a message about a vote does to the poll table.
use cli_demo.Prelude.{
  ℕ, String, ◌≡◌, refl, ◌∙◌, false, ◌||◌, Option, List, some, ◌==◌, string_eq, ◌⊎◌, inl, inr, ◌+◌,
  if◌then◌else◌,
}
use cli_demo.Prelude.Int.{ℤ}
use cli_demo.Prelude.Dict.{lookup}
use cli_demo.GoError.{Error}
use cli_demo.Effect.{ok}
use cli_demo.Effect.Keeps.{Keeps}
use cli_demo.Effect.Answers.{
  Becomes, Becomes-keeps, Becomes-if, Becomes-or_return, Becomes-or_return-lift,
}
use cli_demo.Presenter.Poll as Polls
use cli_demo.Presenter.Poll.{
  MetaRecord, meta, key_eq, Table, meta_key, vote_writes, unvote_writes, switch_writes,
  ttl_duration,
}
use cli_demo.Presenter.Poll.Frames as PollFrames
use cli_demo.Presenter.Poll.Available.{IsAvailable}
use cli_demo.Presenter.Poll.Outcomes.{
  written, vote_answer, unvote_answer, switch_answer, vote-Answers, unvote-Answers, switch-Answers,
}
use cli_demo.Presenter.Messages.{
  IncomingMessage, Request, HandleDeps, send_error, handle_poll_error, refresh_and_broadcast_poll,
  handle_poll_vote, handle_poll_unvote, handle_poll_switch, dispatch, handle,
}
use cli_demo.Presenter.Messages.Polls.{send_error-keeps, handle_poll_error-keeps, refresh-keeps}
use cli_demo.Presenter.Assembly.{Services, message_handler, new_handle_deps}
use cli_demo.Presenter.Assembly.Frames.{IsOutside, IsOutside-map, send_to_one-keeps, send-keeps}
use cli_demo.Presenter.Assembly.Tallies.{IsSeparate}

-- The rows that the message of a connection writes in a poll with the META record `m`, at a time.
abbrev pub vote_effect : MetaRecord → ℕ → String → IncomingMessage → Table → Table
vote_effect m now id msg t =
    if (msg.poll_id == "") || (msg.choice == "")
    then t
    else written (vote_answer m msg.poll_id id msg.choice t)
        (vote_writes msg.poll_id id msg.choice (now + ttl_duration)) t

abbrev pub unvote_effect : String → IncomingMessage → Table → Table
unvote_effect id msg t =
    if (msg.poll_id == "") || (msg.choice == "")
    then t
    else written (unvote_answer msg.poll_id id msg.choice t)
        (unvote_writes msg.poll_id id msg.choice) t

abbrev pub switch_effect : MetaRecord → ℕ → String → IncomingMessage → Table → Table
switch_effect m now id msg t =
    if (msg.poll_id == "") || (msg.from == "") || (msg.to == "")
    then t
    else if msg.from == msg.to
    then t
    else written (switch_answer m msg.poll_id id msg.from msg.to t)
        (switch_writes msg.poll_id id msg.from msg.to (now + ttl_duration)) t

abbrev pub ballot_effect : MetaRecord → ℕ → String → IncomingMessage → Table → Table
ballot_effect m now id msg t =
    if msg.type_name == "poll_vote"
    then vote_effect m now id msg t
    else if msg.type_name == "poll_unvote"
    then unvote_effect id msg t
    else switch_effect m now id msg t

module _ {W I K J S : Type 0} (s : Services W I K J S) (table : W → Table)
    (law : IsAvailable s.polls table) (separate : IsSeparate s table (λ w. false)) where
  module _ (u : Table) where
    abbrev Sees : W → Type 0
    Sees w = table w ≡ u

    others : IsOutside s (λ A m. Keeps Sees m)
    others = IsOutside-map s (λ A m l. record { at = λ w e. (l w refl).1 ∙ e }) separate.outside

    reads :
        (pid visitor : String) (options : Option (List String)) (n : ℤ)
        → Keeps Sees (Polls.get s.polls pid visitor options n false)
    reads =
        PollFrames.get-keeps s.polls Sees (λ k. record { at = (law.get_item_answers k u).after })
          (λ pid prefix. record { at = (law.query_answers pid prefix u).after })

    module _ (domain_name stage : String) where
      abbrev deps : HandleDeps W
      deps = new_handle_deps s domain_name stage

      error-Sees : (id text : String) → Keeps Sees (send_error (message_handler s) id text deps)
      error-Sees =
          send_error-keeps (message_handler s) deps Sees
            (send_to_one-keeps s Sees others domain_name stage)

      poll_error-Sees :
          (id pid : String) (e : Error)
          → Keeps Sees (handle_poll_error (message_handler s) id pid id deps e)
      poll_error-Sees id pid e =
          handle_poll_error-keeps (message_handler s) deps Sees
            (send_to_one-keeps s Sees others domain_name stage) reads id pid id e

      refresh-Sees :
          (pid visitor : String)
          → Keeps Sees (refresh_and_broadcast_poll (message_handler s) pid visitor deps)
      refresh-Sees =
          refresh-keeps (message_handler s) deps Sees
            (send_to_one-keeps s Sees others domain_name stage) reads
            (send-keeps s Sees others domain_name stage)

  module _ (domain_name stage id : String) (msg : IncomingMessage) (m : MetaRecord) (t : Table)
      (open_poll : lookup (meta_key msg.poll_id) t ≡ some (meta m)) where
    abbrev request_deps : HandleDeps W
    request_deps = new_handle_deps s domain_name stage

    -- After an operation on the poll: an error is answered, or the poll is sent to the room.
    handle_poll_vote-Becomes :
        Becomes table
          (handle_poll_vote (message_handler s) id msg request_deps)
          t
          (vote_effect m law.clock id msg t)
    unfolding handle_poll_vote
    handle_poll_vote-Becomes = Becomes-if _ (Becomes-keeps (error-Sees t domain_name stage id _)) (
        Becomes-or_return _ _
          (vote-Answers s.polls table law msg.poll_id m t open_poll id msg.choice)
          (poll_error-Sees _ domain_name stage id msg.poll_id)
          (λ u. refresh-Sees _ domain_name stage msg.poll_id id))

    handle_poll_unvote-Becomes :
        Becomes table
          (handle_poll_unvote (message_handler s) id msg request_deps)
          t
          (unvote_effect id msg t)
    unfolding handle_poll_unvote
    handle_poll_unvote-Becomes =
        Becomes-if _ (Becomes-keeps (error-Sees t domain_name stage id _)) (
          Becomes-or_return _ _
            (unvote-Answers s.polls table law msg.poll_id m t open_poll id msg.choice)
            (poll_error-Sees _ domain_name stage id msg.poll_id)
            (λ u. refresh-Sees _ domain_name stage msg.poll_id id))

    handle_poll_switch-Becomes :
        Becomes table
          (handle_poll_switch (message_handler s) id msg request_deps)
          t
          (switch_effect m law.clock id msg t)
    unfolding handle_poll_switch
    handle_poll_switch-Becomes =
        Becomes-if _ (Becomes-keeps (error-Sees t domain_name stage id _)) (
          Becomes-if _ (Becomes-keeps (error-Sees t domain_name stage id _)) (
            Becomes-or_return _ _
              (switch-Answers s.polls table law msg.poll_id m t open_poll id msg.from msg.to)
              (poll_error-Sees _ domain_name stage id msg.poll_id)
              (λ u. refresh-Sees _ domain_name stage msg.poll_id id)))

    dispatch-Becomes :
        (msg.type_name ≡ "poll_vote")
          ⊎ ((msg.type_name ≡ "poll_unvote") ⊎ (msg.type_name ≡ "poll_switch"))
        → Becomes table
            (dispatch (message_handler s) id request_deps msg)
            t
            (ballot_effect m law.clock id msg t)
    unfolding dispatch handle_poll_vote handle_poll_unvote handle_poll_switch
    dispatch-Becomes (inl e) = rw e handle_poll_vote-Becomes
    dispatch-Becomes (inr (inl e)) = rw e handle_poll_unvote-Becomes
    dispatch-Becomes (inr (inr e)) = rw e handle_poll_switch-Becomes

  -- While DynamoDB is available, its reads are up to date and the poll that it names is open,
  -- a message to vote, to take a vote back or to switch, to the assembled message function,
  -- leaves the poll table exactly as `ballot_effect` says, whatever becomes of the answer and
  -- of the broadcast: the rows of the operation are written where its checks and conditions
  -- hold, and nothing is written where a field is missing, where both choices of a switch are
  -- the same, or where the operation fails. The calls on the other tables and on the API
  -- gateway leave the poll table as it is.
  pub handle-Becomes :
      (req : Request) (msg : IncomingMessage) (m : MetaRecord) (t : Table)
      → s.unmarshal_message req.body ≡ ok msg
      → (msg.type_name ≡ "poll_vote")
        ⊎ ((msg.type_name ≡ "poll_unvote") ⊎ (msg.type_name ≡ "poll_switch"))
      → lookup (meta_key msg.poll_id) t ≡ some (meta m)
      → Becomes table
          (handle (message_handler s) req)
          t
          (ballot_effect m law.clock req.connection_id msg t)
  unfolding handle
  handle-Becomes req msg m t body is_ballot open_poll =
      Becomes-or_return-lift _ _ body
        (dispatch-Becomes req.domain_name req.stage req.connection_id msg m t open_poll is_ballot)
