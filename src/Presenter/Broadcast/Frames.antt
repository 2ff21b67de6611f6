-- ===== src/Presenter/Broadcast/Frames.antt =====
-- presenter/internal/broadcast: what a message to one connection or to a room keeps.
use cli_demo.Prelude.{String, List, [], ◌∷◌}
use cli_demo.Effect.{Result, ok, err}
use cli_demo.Effect.Keeps.{Keeps, keeps_rules, Keeps-if, Keeps-bind}
use cli_demo.Presenter.Connection.{Connection}
use cli_demo.Presenter.Broadcast.{Broadcaster, posted, send_to_one, send_each, send}

module _ {W : Type 0} (b : Broadcaster W) (P : W → Type 0)
    (posts : (id payload : String) → Keeps P (b.post_to_connection id payload))
    (queries : (room : String) → Keeps P (b.query_by_room room))
    (deletes : (room id : String) → Keeps P (b.delete room id)) where
  posted-keeps : (room id : String) (r : Result (Unit {0})) → Keeps P (posted b room id r)
  unfolding posted
  posted-keeps room id (ok u) = search keeps_rules
  posted-keeps room id (err e) = search (keeps_rules, deletes)

  pub send_to_one-keeps : (room id payload : String) → Keeps P (send_to_one b room id payload)
  unfolding send_to_one
  send_to_one-keeps room id payload = search (keeps_rules, posts, posted-keeps)

  send_each-keeps :
      (payload exclude : String) (conns : List Connection)
      → Keeps P (send_each b payload exclude conns)
  unfolding send_each
  send_each-keeps payload exclude [] = search keeps_rules
  send_each-keeps payload exclude (conn ∷ conns) =
      Keeps-if _ _ _ (send_each-keeps payload exclude conns) (
        Keeps-bind _ _ (send_to_one-keeps conn.room conn.connection_id payload)
          (λ _. send_each-keeps payload exclude conns))

  pub send-keeps : (room payload exclude : String) → Keeps P (send b room payload exclude)
  unfolding send
  send-keeps room payload exclude = search (keeps_rules, queries, send_each-keeps)
