-- ===== src/Presenter/Visits/Roles.antt =====
-- presenter/cmd/connect/main.go: which role a connection gets.
use cli_demo.Prelude.{String, ◌≡◌, refl, false}
use cli_demo.Effect.Keeps.{Keeps, Keeps-or_return}
use cli_demo.Effect.Ends.{Ends, AnyOf, Keeps-or_return_ends}
use cli_demo.Presenter.Connection.{Connection}
use cli_demo.Presenter.Messages.Polls.{Keeps-fail, reply_keeps_rules}
use cli_demo.Presenter.Visits.{
  ConnectHandler, Request, cookie_header, broadcast_count, handle_connect,
}

module _ {W : Type 0} (h : ConnectHandler W) (P : W → Type 0)
    (counts : (room : String) → Keeps P (h.count_by_room room))
    (sends : (domain stage room payload exclude : String)
      → Keeps P (h.new_broadcaster domain stage room payload exclude)) where
  pub broadcast_count-keeps :
      (req : Request) (exclude : String) → Keeps P (broadcast_count h req exclude)
  unfolding broadcast_count
  broadcast_count-keeps req exclude = search (reply_keeps_rules, counts, sends)

  -- Where the token of the request's cookie is not valid, or cannot be checked, a new
  -- connection keeps whatever storing a viewer, checking the token, counting and broadcasting
  -- keep: it is never stored as a presenter.
  pub handle_connect-keeps :
      (req : Request)
      → Keeps P (h.is_valid (h.extract_cookie (cookie_header req.headers) "slide_auth"))
      → Ends P
          (h.is_valid (h.extract_cookie (cookie_header req.headers) "slide_auth"))
          (λ valid w. valid ≡ false)
          AnyOf
      → ((conn : Connection) → conn.role ≡ "viewer" → Keeps P (h.put conn))
      → Keeps P (handle_connect h req)
  unfolding handle_connect
  handle_connect-keeps req reads invalid puts =
      Keeps-or_return_ends (λ valid. valid ≡ false) _ _ _ reads invalid
        (Keeps-fail 500 "validate session")
        (λ valid e.
          Keeps-or_return _ _ _ (puts _ (rw e refl)) (Keeps-fail 500 "put connection")
            (λ _. broadcast_count-keeps req req.connection_id))
