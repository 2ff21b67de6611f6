-- ===== src/Presenter/Broadcast.antt =====
-- presenter/internal/broadcast: a message to the connections of a room.
pub mod Delivery
pub mod Frames
use cli_demo.Prelude.{
  String, ◌<>◌, Bool, true, false, List, [], ◌∷◌, ◌==◌, string_eq, if◌then◌else◌,
}
use cli_demo.GoError.{Error, wrap, is_gone_error}
use cli_demo.Effect.{Result, ok, err, Eff, pure, raise, attempt, ◌>>=◌, ◌>>◌, wrapping}
use cli_demo.Presenter.Connection.{Connection}

-- The struct: the API gateway, and the querier and the deleter of connections.
pub record Broadcaster (W : Type 0) : Type 0 where
  pub post_to_connection : String → String → Eff W (Unit {0})
  pub query_by_room : String → Eff W (List Connection)
  pub delete : String → String → Eff W (Unit {0})

module _ {W : Type 0} (b : Broadcaster W) where
  open b use {post_to_connection, query_by_room, delete}

  -- After a message to one connection: a connection that is gone is deleted, whatever the deletion
  -- answers.
  posted : String → String → Result (Unit {0}) → Eff W (Unit {0})
  posted room id (ok u) = pure tt
  posted room id (err e) =
      if is_gone_error e
      then (attempt (delete room id) >> pure tt)
      else raise (wrap ("post to connection " <> id) e)

  unfoldable pub send_to_one : String → String → String → Eff W (Unit {0})
  unfolding posted
  send_to_one room id payload = do r ← attempt (post_to_connection id payload); posted room id r

  unfoldable pub send_each : String → String → List Connection → Eff W (Unit {0})
  send_each payload exclude [] = pure tt
  send_each payload exclude (conn ∷ conns) =
      if conn.connection_id == exclude
      then send_each payload exclude conns
      else do send_to_one conn.room conn.connection_id payload; send_each payload exclude conns

  unfoldable pub send : String → String → String → Eff W (Unit {0})
  send room payload exclude = do
    conns ← wrapping "query connections" (query_by_room room)
    send_each payload exclude conns
