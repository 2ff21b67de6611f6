-- ===== src/Presenter/Assembly.antt =====
-- presenter/cmd/message, connect and disconnect: what newHandleDepsFactory, newBroadcasterFactory and
-- run put together, over the stores and the API gateway.
pub mod Frames
pub mod Tallies
pub mod Privilege
pub mod Ballots
use cli_demo.Prelude.{ℕ, String, ◌<>◌, List, [], ◌∷◌, Option, none, some}
use cli_demo.Prelude.Int.{ℤ}
use cli_demo.Effect.{Result, Eff, pure, ◌>>=◌, value_of}
use cli_demo.Presenter.Connection as Connections
use cli_demo.Presenter.Connection.{Connection, SessionStore}
use cli_demo.Presenter.Broadcast as Broadcasts
use cli_demo.Presenter.Broadcast.{Broadcaster}
use cli_demo.Presenter.Poll as Polls
use cli_demo.Presenter.Room as Rooms
use cli_demo.Presenter.Slides as Slides
use cli_demo.Presenter.Messages as Messages
use cli_demo.Presenter.Messages.{
  IncomingMessage, Reply, Response, HandleDeps, MessageHandler, room, handle,
}
use cli_demo.Presenter.Visits as Visits
use cli_demo.Presenter.Visits.{ConnectHandler, handle_connect, handle_disconnect}

-- The stores over the DynamoDB client, and the packages the functions call.
pub record Services (W I K J S : Type 0) : Type 0 where
  pub polls : Polls.Store W
  pub connections : Connections.Store W I K
  pub sessions : SessionStore W S
  pub rooms : Rooms.Store W J
  -- apigatewaymanagementapi: the endpoint, the connection and the payload
  pub post_to_connection : String → String → String → Eff W (Unit {0})
  -- encoding/json
  pub unmarshal_message : String → Result IncomingMessage
  pub marshal_reply : Reply → Result String
  pub marshal_message : Slides.Message → Result String
  -- net/http
  pub extract_cookie : String → String → String
  -- the number of pages that a query may have
  pub fuel : ℕ

unfoldable pub new_apigw_endpoint : String → String → String
new_apigw_endpoint domain_name stage = "https://" <> domain_name <> "/" <> stage

module _ {W I K J S : Type 0} (s : Services W I K J S) where
  open s use {
    polls, connections, sessions, rooms, post_to_connection, unmarshal_message, marshal_reply,
    marshal_message, extract_cookie, fuel,
  }

  -- `value_of`: a query with more pages than the fuel has no value, and neither has the panic on a nil
  -- connection, which Get never returns.
  unfoldable pub query_by_room : String → Eff W (List Connection)
  query_by_room room = value_of (Connections.query_by_room connections fuel room)

  unfoldable pub count_by_room : String → Eff W ℕ
  count_by_room room = value_of (Connections.count_by_room connections fuel room)

  unfoldable pub get_connection : String → String → Eff W (Option Connection)
  get_connection room id = do conn ← Connections.get connections room id; pure (some conn)

  -- broadcast.NewBroadcaster, for the endpoint of a request.
  abbrev pub new_broadcaster : String → String → Broadcaster W
  new_broadcaster domain_name stage = record {
    post_to_connection = post_to_connection (new_apigw_endpoint domain_name stage);
    query_by_room = query_by_room;
    delete = Connections.delete connections;
  }

  -- viewerCountAdapter ignores the room.
  unfoldable pub adapted_send_to_one : Broadcaster W → String → String → String → Eff W (Unit {0})
  adapted_send_to_one b other id payload = Broadcasts.send_to_one b room id payload

  -- What slidesync.NewHandler, handson.NewHandler and viewercount.NewHandler are given.
  abbrev pub new_room_handler : Broadcaster W → Slides.Handler W
  new_room_handler b = record {
    get = get_connection;
    send = Broadcasts.send b;
    put_state = Rooms.put_state rooms;
    count_by_room = count_by_room;
    send_to_one = adapted_send_to_one b;
    json_marshal = marshal_message;
  }

  abbrev pub new_handle_deps : String → String → HandleDeps W
  new_handle_deps domain_name stage =
      let b = new_broadcaster domain_name stage in
      let handler = new_room_handler b in
      record {
        slide_sync_handle =
            λ room id page. value_of (Slides.handle_slide_sync handler room id page);
        hands_on_handle = Slides.handle_hands_on handler;
        viewer_count_handle = Slides.handle_viewer_count handler;
        send = Broadcasts.send b;
        send_to_one = Broadcasts.send_to_one b;
      }

  abbrev pub message_handler : MessageHandler W
  message_handler = record {
    poll_get = Polls.get polls;
    poll_vote = Polls.vote polls;
    poll_unvote = Polls.unvote polls;
    poll_switch = Polls.switch polls;
    conn_get = Connections.get connections;
    get_state = Rooms.get_state rooms;
    new_deps = new_handle_deps;
    json_unmarshal = unmarshal_message;
    json_marshal = marshal_reply;
  }

  -- connectHandler, and disconnectHandler, which uses no `put` and no `is_valid`.
  abbrev pub connect_handler : ConnectHandler W
  connect_handler = record {
    put = Connections.put connections;
    delete = Connections.delete connections;
    count_by_room = count_by_room;
    is_valid = Connections.is_valid sessions;
    new_broadcaster = λ domain_name stage. Broadcasts.send (new_broadcaster domain_name stage);
    json_marshal = λ n. marshal_message (Slides.viewer_count n);
    extract_cookie = extract_cookie;
  }

-- The events of the WebSocket API, each with the function that run starts for it.
pub data Event : Type 0 where
  connects : Visits.Request → Event
  says : Messages.Request → Event
  disconnects : Visits.Request → Event

module _ {W I K J S : Type 0} (s : Services W I K J S) where
  unfoldable pub serve : Event → Eff W Response
  serve (connects req) = handle_connect (connect_handler s) req
  serve (says req) = handle (message_handler s) req
  serve (disconnects req) = handle_disconnect (connect_handler s) req

  -- A failed event ends only itself.
  unfoldable pub serve_all : List Event → W → W
  serve_all [] w = w
  serve_all (e ∷ es) w = serve_all es (serve e w).1
