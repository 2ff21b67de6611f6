-- ===== src/Presenter/Visits.antt =====
-- presenter/cmd/connect and presenter/cmd/disconnect: a connection opens, and one closes.
pub mod Roles
pub mod Frames
use cli_demo.Prelude.{
  ℕ, String, Bool, true, false, Option, none, some, ◌==◌, string_eq, if◌then◌else◌,
}
use cli_demo.Prelude.Dict.{Dict, lookup}
use cli_demo.Effect.{Result, ok, err, Eff, lift, or_return}
use cli_demo.Presenter.Connection.{Connection}
use cli_demo.Presenter.Messages.{Response, room, respond, fail}

-- The request: its connection, its domain and stage, and the headers.
pub record Request : Type 0 where
  pub connection_id : String
  pub domain_name : String
  pub stage : String
  pub headers : Dict String String

-- The fields of connectHandler and disconnectHandler; a connection has no time to live before Put.
pub record ConnectHandler (W : Type 0) : Type 0 where
  pub put : Connection → Eff W (Unit {0})
  pub delete : String → String → Eff W (Unit {0})
  pub count_by_room : String → Eff W ℕ
  pub is_valid : String → Eff W Bool
  pub new_broadcaster : String → String → String → String → String → Eff W (Unit {0})
  -- the message of the viewer count, by encoding/json
  pub json_marshal : ℕ → Result String
  -- a header and the name of a cookie, by net/http: the empty string if there is none
  pub extract_cookie : String → String → String

abbrev header_or_empty : Option String → String
header_or_empty none = ""
header_or_empty (some v) = v

-- req.Headers["cookie"], or else req.Headers["Cookie"]
unfoldable pub cookie_header : Dict String String → String
cookie_header headers =
    let lower = header_or_empty (lookup "cookie" headers) in
    if lower == "" then header_or_empty (lookup "Cookie" headers) else lower

module _ {W : Type 0} (h : ConnectHandler W) where
  open h use {put, delete, count_by_room, is_valid, new_broadcaster, json_marshal, extract_cookie}

  -- The number of viewers, to every connection but the excluded one.
  unfoldable pub broadcast_count : Request → String → Eff W Response
  broadcast_count req exclude =
      or_return (count_by_room room) (fail 500 "count connections") (λ count.
        or_return (lift (json_marshal count)) (fail 500 "marshal viewer_count") (λ payload.
          or_return (new_broadcaster req.domain_name req.stage room payload exclude)
            (fail 500 "broadcast viewer_count") (λ _. respond 200)))

  unfoldable pub handle_connect : Request → Eff W Response
  handle_connect req =
      or_return (is_valid (extract_cookie (cookie_header req.headers) "slide_auth"))
        (fail 500 "validate session")
        (λ valid.
          or_return
            (put (record {
              room = room;
              connection_id = req.connection_id;
              role = (if valid then "presenter" else "viewer");
              ttl = 0;
            }))
            (fail 500 "put connection") (λ _. broadcast_count req req.connection_id))

  unfoldable pub handle_disconnect : Request → Eff W Response
  handle_disconnect req =
      or_return (delete room req.connection_id) (fail 500 "delete connection")
        (λ _. broadcast_count req "")
