-- ===== src/Presenter/Assembly/Frames.antt =====
-- presenter/cmd/message, connect and disconnect: what the assembled functions keep, for whatever the
-- calls on the tables and the API gateway keep.
use cli_demo.Prelude.{String, Option}
use cli_demo.Effect.{Eff}
use cli_demo.Effect.Keeps.{Keeps, keeps_rules, value_of-keeps}
use cli_demo.Presenter.Connection as Connections
use cli_demo.Presenter.Connection.Frames as ConnectionFrames
use cli_demo.Presenter.Room as Rooms
use cli_demo.Presenter.Room.Frames as RoomFrames
use cli_demo.Presenter.Broadcast as Broadcasts
use cli_demo.Presenter.Broadcast.Frames as BroadcastFrames
use cli_demo.Presenter.Slides as Slides
use cli_demo.Presenter.Slides.Frames as SlidesFrames
use cli_demo.Presenter.Assembly.{
  Services, new_broadcaster, query_by_room, count_by_room, get_connection, adapted_send_to_one,
  new_room_handler,
}

-- The calls that read a table, delete a connection, or post to one, each of which has `R`.
pub record IsOutside {W I K J S : Type 0} (s : Services W I K J S)
    (R : (A : Type 0) → Eff W A → Type 0) : Type 0 where
  pub gets : (room id : String) → R _ (s.connections.client.get_item room id)
  pub deletes : (room id : String) → R _ (s.connections.client.delete_item room id)
  pub queries : (room : String) (start : Option K) → R _ (s.connections.client.query room start)
  pub counts :
      (room : String) (start : Option K) → R _ (s.connections.client.query_count room start)
  pub reads_room : (room : String) → R _ (s.rooms.get_item room)
  pub reads_session : (token : String) → R _ (s.sessions.get_item token)
  pub posts : (endpoint id payload : String) → R _ (s.post_to_connection endpoint id payload)

pub IsOutside-map :
    {W I K J S : Type 0} (s : Services W I K J S) {R R' : (A : Type 0) → Eff W A → Type 0}
    → ((A : Type 0) (m : Eff W A) → R A m → R' A m)
    → IsOutside s R
    → IsOutside s R'
IsOutside-map s f o = record {
  gets = λ room id. f _ _ (o.gets room id);
  deletes = λ room id. f _ _ (o.deletes room id);
  queries = λ room start. f _ _ (o.queries room start);
  counts = λ room start. f _ _ (o.counts room start);
  reads_room = λ room. f _ _ (o.reads_room room);
  reads_session = λ token. f _ _ (o.reads_session token);
  posts = λ endpoint id payload. f _ _ (o.posts endpoint id payload);
}

module _ {W I K J S : Type 0} (s : Services W I K J S) (P : W → Type 0)
    (outside : IsOutside s (λ A m. Keeps P m)) where
  connections-keep : ConnectionFrames.IsFramed s.connections.client P
  connections-keep = record {
    gets = outside.gets;
    deletes = outside.deletes;
    queries = outside.queries;
    counts = outside.counts;
  }

  pub query_by_room-keeps : (room : String) → Keeps P (query_by_room s room)
  unfolding query_by_room
  query_by_room-keeps room =
      value_of-keeps _
        (ConnectionFrames.query_by_room-keeps s.connections P connections-keep s.fuel room)

  pub count_by_room-keeps : (room : String) → Keeps P (count_by_room s room)
  unfolding count_by_room
  count_by_room-keeps room =
      value_of-keeps _
        (ConnectionFrames.count_by_room-keeps s.connections P connections-keep s.fuel room)

  pub get-keeps : (room id : String) → Keeps P (Connections.get s.connections room id)
  get-keeps = ConnectionFrames.get-keeps s.connections P connections-keep

  pub delete-keeps : (room id : String) → Keeps P (Connections.delete s.connections room id)
  delete-keeps = ConnectionFrames.delete-keeps s.connections P connections-keep

  pub get_connection-keeps : (room id : String) → Keeps P (get_connection s room id)
  unfolding get_connection
  get_connection-keeps room id = search (keeps_rules, get-keeps)

  pub get_state-keeps : (room : String) → Keeps P (Rooms.get_state s.rooms room)
  get_state-keeps = RoomFrames.get_state-keeps s.rooms P outside.reads_room

  pub is_valid-keeps : (token : String) → Keeps P (Connections.is_valid s.sessions token)
  is_valid-keeps = ConnectionFrames.is_valid-keeps s.sessions P outside.reads_session

  -- What is sent to a request's endpoint.
  module _ (domain_name stage : String) where
    pub send_to_one-keeps :
        (room id payload : String)
        → Keeps P (Broadcasts.send_to_one (new_broadcaster s domain_name stage) room id payload)
    send_to_one-keeps =
        BroadcastFrames.send_to_one-keeps (new_broadcaster s domain_name stage) P (outside.posts _)
          query_by_room-keeps delete-keeps

    pub send-keeps :
        (room payload exclude : String)
        → Keeps P (Broadcasts.send (new_broadcaster s domain_name stage) room payload exclude)
    send-keeps =
        BroadcastFrames.send-keeps (new_broadcaster s domain_name stage) P (outside.posts _)
          query_by_room-keeps delete-keeps

    pub adapted_send_to_one-keeps :
        (room id payload : String)
        → Keeps P (adapted_send_to_one s (new_broadcaster s domain_name stage) room id payload)
    unfolding adapted_send_to_one
    adapted_send_to_one-keeps room id payload = send_to_one-keeps _ id payload

    pub handle_viewer_count-keeps :
        (room id : String)
        → Keeps P (
            Slides.handle_viewer_count
              (new_room_handler s (new_broadcaster s domain_name stage))
              room
              id)
    handle_viewer_count-keeps =
        SlidesFrames.handle_viewer_count-keeps _ P count_by_room-keeps adapted_send_to_one-keeps
