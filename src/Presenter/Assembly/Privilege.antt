-- ===== src/Presenter/Assembly/Privilege.antt =====
-- presenter/cmd/message, connect and disconnect: who may save a page or open a poll, under any
-- events.
use cli_demo.Prelude.{String, ◌≡◌, refl, false, List, [], ◌∷◌, All, ◌==◌, string_eq}
use cli_demo.Effect.{Eff}
use cli_demo.Effect.Keeps.{Keeps, value_of-keeps}
use cli_demo.Effect.Ends.{
  Ends, Any, AnyOf, Ends-and, Ends-keeps, Ends-Keeps, Ends-weaken, Ends-bind, Ends-pure,
}
use cli_demo.Presenter.Connection as Connections
use cli_demo.Presenter.Connection.{Connection}
use cli_demo.Presenter.Connection.Viewers.{
  StoresNothing, IsConnectionTable, OnlyViewers, StoresNothing-OnlyViewers, get-OnlyViewers,
  put-OnlyViewers,
}
use cli_demo.Presenter.Connection.Frames as ConnectionFrames
use cli_demo.Presenter.Poll.Frames as PollFrames
use cli_demo.Presenter.Slides.Access.{
  handle_slide_sync-IsViewer, handle_hands_on-IsViewer, IsViewer,
}
use cli_demo.Presenter.Visits.{cookie_header}
use cli_demo.Presenter.Visits.Frames.{disconnect-keeps}
use cli_demo.Presenter.Visits.Roles.{handle_connect-keeps}
use cli_demo.Presenter.Messages.Frames.{handle-keeps}
use cli_demo.Presenter.Messages.Frames as MessagesFrames
use cli_demo.Presenter.Assembly.{
  Services, message_handler, connect_handler, new_handle_deps, get_connection, Event, connects,
  says, disconnects, serve, serve_all,
}
use cli_demo.Presenter.Assembly.Frames.{
  IsOutside, IsOutside-map, get-keeps, delete-keeps, count_by_room-keeps, get_state-keeps,
  is_valid-keeps, send_to_one-keeps, send-keeps, handle_viewer_count-keeps,
}

module _ {W I K J S : Type 0} (s : Services W I K J S) where
  -- The token of a new connection's cookie is not valid, or cannot be checked, at any time.
  abbrev pub IsUnauthenticated : Event → Type 0
  IsUnauthenticated (connects req) =
      Ends Any
        (Connections.is_valid s.sessions
          (s.extract_cookie (cookie_header req.headers) "slide_auth"))
        (λ valid w. valid ≡ false) AnyOf
  IsUnauthenticated (says req) = Unit
  IsUnauthenticated (disconnects req) = Unit

  -- A call that stores no connection, and keeps `Q`.
  abbrev pub Harmless : (I → W → Type 0) → (W → Type 0) → (A : Type 0) → Eff W A → Type 0
  Harmless Stored Q A m = StoresNothing Stored m × Keeps Q m

  module _ (Stored : I → W → Type 0) (Q : W → Type 0) (law : IsConnectionTable s.connections Stored)
      (outside : IsOutside s (Harmless Stored Q))
      (polls : PollFrames.IsOutside s.polls (Harmless Stored Q))
      (puts : (i : I) → Keeps Q (s.connections.client.put_item i)) where
    abbrev Unprivileged : W → Type 0
    Unprivileged w = OnlyViewers s.connections Stored w × Q w

    Harmless-Unprivileged :
        (A : Type 0) (m : Eff W A) → Harmless Stored Q A m → Keeps Unprivileged m
    Harmless-Unprivileged A m h = record {
      at = λ w u. ((StoresNothing-OnlyViewers s.connections Stored m h.0).at w u.0, h.1.at w u.1);
    }

    others : IsOutside s (λ A m. Keeps Unprivileged m)
    others = IsOutside-map s Harmless-Unprivileged outside

    poll_calls : PollFrames.IsOutside s.polls (λ A m. Keeps Unprivileged m)
    poll_calls = record {
      clock = Harmless-Unprivileged _ _ polls.clock;
      gets = λ k. Harmless-Unprivileged _ _ (polls.gets k);
      queries = λ pid prefix. Harmless-Unprivileged _ _ (polls.queries pid prefix);
      transacts = λ ws. Harmless-Unprivileged _ _ (polls.transacts ws);
    }

    get-Unprivileged :
        (room id : String)
        → Ends Unprivileged
            (Connections.get s.connections room id)
            (λ conn w. (conn.role == "presenter") ≡ false)
            AnyOf
    get-Unprivileged room id =
        Ends-weaken (λ w u. u.0) (λ conn w v. v) (λ e w v. v)
          (get-OnlyViewers s.connections Stored law room id)

    put-Unprivileged :
        (conn : Connection)
        → (conn.role == "presenter") ≡ false
        → Keeps Unprivileged (Connections.put s.connections conn)
    put-Unprivileged conn viewer = record {
      at = λ w u. (
        (put-OnlyViewers s.connections Stored law conn viewer).at w u.0,
        (ConnectionFrames.put-keeps s.connections Q puts conn).at w u.1,
      );
    }

    get_connection-Unprivileged :
        (room id : String)
        → Ends Unprivileged
            (get_connection s room id)
            (λ o w. Unprivileged w × IsViewer o)
            (λ _. Unprivileged)
    unfolding get_connection
    get_connection-Unprivileged room id =
        Ends-bind _ _ (λ conn w. Unprivileged w × ((conn.role == "presenter") ≡ false))
          (Ends-weaken (λ w u. u) (λ conn w v. v) (λ e w v. v.0)
            (Ends-and _ (Ends-keeps _ (get-keeps s Unprivileged others room id))
              (get-Unprivileged room id)))
          (λ conn. Ends-pure _ (λ w v. v))

    frame :
        (domain_name stage id : String)
        → MessagesFrames.IsFramed
            (message_handler s)
            (new_handle_deps s domain_name stage)
            Unprivileged
            (λ b. b ≡ false)
            id
    frame domain_name stage id = record {
      answers = send_to_one-keeps s Unprivileged others domain_name stage;
      broadcasts = send-keeps s Unprivileged others domain_name stage;
      slides = λ page. value_of-keeps _ (
          Ends-Keeps (
            handle_slide_sync-IsViewer _ Unprivileged _ id page
              (get_connection-Unprivileged _ id)));
      instructs = λ i p.
          Ends-Keeps
            (handle_hands_on-IsViewer _ Unprivileged _ id i p (get_connection-Unprivileged _ id));
      counts = λ room. handle_viewer_count-keeps s Unprivileged others domain_name stage room id;
      state = get_state-keeps s Unprivileged others;
      conn = get-keeps s Unprivileged others;
      role = get-Unprivileged;
      allows_viewer = refl;
      gets = λ pid visitor options n b viewer. rw viewer (
          PollFrames.get-keeps s.polls Unprivileged poll_calls.gets poll_calls.queries pid visitor
            options n);
      votes = λ pid. PollFrames.vote-keeps s.polls Unprivileged poll_calls pid id;
      unvotes = λ pid. PollFrames.unvote-keeps s.polls Unprivileged poll_calls pid id;
      switches = λ pid. PollFrames.switch-keeps s.polls Unprivileged poll_calls pid id;
    }

    serve-Unprivileged : (e : Event) → IsUnauthenticated e → Keeps Unprivileged (serve s e)
    unfolding serve
    serve-Unprivileged (connects req) invalid =
        handle_connect-keeps (connect_handler s) Unprivileged
          (count_by_room-keeps s Unprivileged others) (send-keeps s Unprivileged others) req
          (is_valid-keeps s Unprivileged others _)
          (Ends-weaken (λ w u. tt) (λ valid w v. v) (λ e w v. v) invalid)
          (λ conn viewer. put-Unprivileged conn (rw viewer refl))
    serve-Unprivileged (says req) u =
        handle-keeps (message_handler s) Unprivileged (λ b. b ≡ false) req
          (frame req.domain_name req.stage req.connection_id)
    serve-Unprivileged (disconnects req) u =
        disconnect-keeps (connect_handler s) Unprivileged
          (count_by_room-keeps s Unprivileged others) (send-keeps s Unprivileged others)
          (delete-keeps s Unprivileged others) req

    -- If every stored connection is a viewer's and no new connection has a valid session,
    -- then whatever events come, in whatever order, every stored connection is still a
    -- viewer's, and what holds of the world and is kept by every call but the saving of a
    -- page and the put that opens a poll still holds: no page is saved and no poll is
    -- opened. A put of a connection stores nothing else, no other call stores one, a
    -- connection that is found was stored, and an item has the role that it was made with.
    pub serve_all-Unprivileged :
        (es : List Event) (w : W)
        → All IsUnauthenticated es
        → OnlyViewers s.connections Stored w
        → Q w
        → OnlyViewers s.connections Stored (serve_all s es w) × Q (serve_all s es w)
    unfolding serve_all
    serve_all-Unprivileged [] w n v q = (v, q)
    serve_all-Unprivileged (e ∷ es) w n v q =
        let next = (serve-Unprivileged e n.0).at w (v, q) in
        serve_all-Unprivileged es (serve s e w).1 n.1 next.0 next.1
