-- ===== src/Presenter/Assembly/Tallies.antt =====
-- presenter/cmd/message, connect and disconnect: the poll table under any events.
use mathlib.Core.Path.{subst}
use cli_demo.Prelude.{String, ◌≡◌, sym, Bool, false, List, [], ◌∷◌, All}
use cli_demo.Effect.{Eff}
use cli_demo.Effect.Keeps.{Keeps, value_of-keeps}
use cli_demo.Effect.Ends.{Ends-any}
use cli_demo.Presenter.Connection as Connections
use cli_demo.Presenter.Room.Frames as RoomFrames
use cli_demo.Presenter.Slides.Frames as SlidesFrames
use cli_demo.Presenter.Poll.{Table, Unswept}
use cli_demo.Presenter.Poll.SortKey.{has_hash}
use cli_demo.Presenter.Poll.Tally.{IsTallied}
use cli_demo.Presenter.Poll.Exact.{
  IsLawful, get-IsTallied, vote-IsTallied, unvote-IsTallied, switch-IsTallied,
}
use cli_demo.Presenter.Messages.Frames.{handle-keeps}
use cli_demo.Presenter.Messages.Frames as MessagesFrames
use cli_demo.Presenter.Visits.Frames.{connect-keeps, disconnect-keeps}
use cli_demo.Presenter.Assembly.{
  Services, message_handler, connect_handler, new_handle_deps, Event, connects, says, disconnects,
  serve, serve_all,
}
use cli_demo.Presenter.Assembly.Frames.{
  IsOutside, IsOutside-map, get-keeps, delete-keeps, get_connection-keeps, count_by_room-keeps,
  get_state-keeps, is_valid-keeps, send_to_one-keeps, send-keeps, handle_viewer_count-keeps,
}

-- A call that leaves the poll table as it is, until a row is deleted for its time to live.
abbrev pub Leaves : {W A : Type 0} → (W → Table) → (W → Bool) → Eff W A → Type 0
Leaves {W} table swept m = (w : W) → Unswept swept m w (table (m w).1 ≡ table w)

-- The poll table is a table of its own: calls on the other tables and on the API gateway leave it as
-- it is.
pub record IsSeparate {W I K J S : Type 0} (s : Services W I K J S) (table : W → Table)
    (swept : W → Bool) : Type 0 where
  pub puts : (i : I) → Leaves table swept (s.connections.client.put_item i)
  pub outside : IsOutside s (λ A m. Leaves table swept m)
  pub puts_room : (j : J) → Leaves table swept (s.rooms.put_item j)

-- The id of a connection that sends messages has no `#` in it.
abbrev pub HasPlainId : Event → Type 0
HasPlainId (connects req) = Unit
HasPlainId (says req) = has_hash req.connection_id ≡ false
HasPlainId (disconnects req) = Unit

module _ {W I K J S : Type 0} (s : Services W I K J S) (table : W → Table) (swept : W → Bool)
    (law : IsLawful s.polls table swept) (separate : IsSeparate s table swept) where
  abbrev Tallied : W → Type 0
  Tallied w = swept w ≡ false → IsTallied (table w)

  Leaves-Tallied : {A : Type 0} (m : Eff W A) → Leaves table swept m → Keeps Tallied m
  Leaves-Tallied m l = record { at = λ w h s. let x = l w s in subst IsTallied (sym x.1) (h x.0) }

  outside : IsOutside s (λ A m. Keeps Tallied m)
  outside = IsOutside-map s (λ A. Leaves-Tallied) separate.outside

  frame :
      (domain_name stage id : String)
      → has_hash id ≡ false
      → MessagesFrames.IsFramed
          (message_handler s)
          (new_handle_deps s domain_name stage)
          Tallied
          (λ b. Unit)
          id
  frame domain_name stage id plain = record {
    answers = send_to_one-keeps s Tallied outside domain_name stage;
    broadcasts = send-keeps s Tallied outside domain_name stage;
    slides = λ page. value_of-keeps _ (
        SlidesFrames.handle_slide_sync-keeps _ Tallied (get_connection-keeps s Tallied outside)
          (send-keeps s Tallied outside domain_name stage)
          (RoomFrames.put_state-keeps s.rooms Tallied
            (λ j. Leaves-Tallied _ (separate.puts_room j)))
          _ id page);
    instructs =
        SlidesFrames.handle_hands_on-keeps _ Tallied (get_connection-keeps s Tallied outside)
          (send-keeps s Tallied outside domain_name stage) _ id;
    counts = λ room. handle_viewer_count-keeps s Tallied outside domain_name stage room id;
    state = get_state-keeps s Tallied outside;
    conn = get-keeps s Tallied outside;
    role = λ room i. Ends-any _;
    allows_viewer = tt;
    gets =
        λ pid visitor options n b a. get-IsTallied s.polls table swept law pid visitor options n b;
    votes = λ pid. vote-IsTallied s.polls table swept law pid id plain;
    unvotes = λ pid. unvote-IsTallied s.polls table swept law pid id plain;
    switches = λ pid. switch-IsTallied s.polls table swept law pid id plain;
  }

  serve-IsTallied : (e : Event) → HasPlainId e → Keeps Tallied (serve s e)
  unfolding serve
  serve-IsTallied (connects req) plain =
      connect-keeps (connect_handler s) Tallied (count_by_room-keeps s Tallied outside)
        (send-keeps s Tallied outside) (is_valid-keeps s Tallied outside)
        (Connections.Frames.put-keeps s.connections Tallied
          (λ i. Leaves-Tallied _ (separate.puts i)))
        req
  serve-IsTallied (says req) plain =
      handle-keeps (message_handler s) Tallied (λ b. Unit) req
        (frame req.domain_name req.stage req.connection_id plain)
  serve-IsTallied (disconnects req) plain =
      disconnect-keeps (connect_handler s) Tallied (count_by_room-keeps s Tallied outside)
        (send-keeps s Tallied outside) (delete-keeps s Tallied outside) req

  serve_all-Tallied :
      (es : List Event) (w : W) → All HasPlainId es → Tallied w → Tallied (serve_all s es w)
  unfolding serve_all
  serve_all-Tallied [] w n h = h
  serve_all-Tallied (e ∷ es) w n h =
      serve_all-Tallied es (serve s e w).1 n.1 ((serve-IsTallied e n.0).at w h)

  -- Any sequence of events of the WebSocket API to the assembled functions, each of which may
  -- fail at any point, keeps the poll table tallied: no key has two rows, the counter of every
  -- choice of an open poll is the number of ballots for it, and a poll that is not open has no
  -- ballots. This holds as long as DynamoDB has deleted no row of the poll table because its
  -- time to live is over. The ids of connections that send messages have no `#` in them; until
  -- such a deletion, DynamoDB changes the poll table by committed writes only, and the calls
  -- on the other tables and on the API gateway leave it as it is.
  pub serve_all-IsTallied :
      (es : List Event) (w : W)
      → All HasPlainId es
      → IsTallied (table w)
      → swept (serve_all s es w) ≡ false
      → IsTallied (table (serve_all s es w))
  serve_all-IsTallied es w n h = serve_all-Tallied es w n (λ s. h)
