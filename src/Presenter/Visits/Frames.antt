-- ===== src/Presenter/Visits/Frames.antt =====
-- presenter/cmd/connect and disconnect: what opening and closing a connection keep.
use cli_demo.Prelude.{String}
use cli_demo.Effect.Keeps.{Keeps}
use cli_demo.Presenter.Connection.{Connection}
use cli_demo.Presenter.Messages.Polls.{reply_keeps_rules}
use cli_demo.Presenter.Visits.{ConnectHandler, Request, handle_connect, handle_disconnect}
use cli_demo.Presenter.Visits.Roles.{broadcast_count-keeps}

module _ {W : Type 0} (h : ConnectHandler W) (P : W → Type 0)
    (counts : (room : String) → Keeps P (h.count_by_room room))
    (sends : (domain stage room payload exclude : String)
      → Keeps P (h.new_broadcaster domain stage room payload exclude)) where
  pub connect-keeps :
      ((token : String) → Keeps P (h.is_valid token))
      → ((conn : Connection) → Keeps P (h.put conn))
      → (req : Request) → Keeps P (handle_connect h req)
  unfolding handle_connect
  connect-keeps reads puts req =
      search (reply_keeps_rules, reads, puts, broadcast_count-keeps h P counts sends)

  pub disconnect-keeps :
      ((room id : String) → Keeps P (h.delete room id))
      → (req : Request) → Keeps P (handle_disconnect h req)
  unfolding handle_disconnect
  disconnect-keeps deletes req =
      search (reply_keeps_rules, deletes, broadcast_count-keeps h P counts sends)
