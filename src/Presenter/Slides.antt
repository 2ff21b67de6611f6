-- ===== src/Presenter/Slides.antt =====
-- presenter/internal/slidesync, handson and viewercount: what a presenter may send to a room, and the
-- number of its viewers.
pub mod Access
pub mod Frames
use cli_demo.Prelude.{ℕ, String, Bool, not, Option, none, some, ◌==◌, string_eq, if◌then◌else◌}
use cli_demo.Prelude.Int.{ℤ}
use cli_demo.GoError.{sentinel, plain, slides_not_presenter, hands_on_not_presenter}
use cli_demo.Effect.{Result, ok, err, Eff, pure, raise, lift, ◌>>=◌, ◌>>◌, wrapping}
use cli_demo.Presenter.Connection.{Connection}

-- The messages that the handlers send.
pub data Message : Type 0 where
  slide_sync : ℤ → Message
  hands_on : String → String → Message
  viewer_count : ℕ → Message

-- What the handlers are built from; `get` may return a nil connection.
pub record Handler (W : Type 0) : Type 0 where
  pub get : String → String → Eff W (Option Connection)
  pub send : String → String → String → Eff W (Unit {0})
  pub put_state : String → ℤ → Eff W (Unit {0})
  pub count_by_room : String → Eff W ℕ
  pub send_to_one : String → String → String → Eff W (Unit {0})
  pub json_marshal : Message → Result String

module _ {W : Type 0} (h : Handler W) where
  open h use {get, send, put_state, count_by_room, send_to_one, json_marshal}

  -- `conn.Role` of a nil connection panics, which no caller recovers from: `none`.
  sync_as : String → String → ℤ → Option Connection → Eff W (Option (Unit {0}))
  sync_as room id page none = pure none
  sync_as room id page (some conn) =
      if not (conn.role == "presenter") then raise (sentinel slides_not_presenter) else do
        payload ← wrapping "marshal slide_sync" (lift (json_marshal (slide_sync page)))
        wrapping "save state" (put_state room page)
        wrapping "broadcast slide_sync" (send room payload id)
        pure (some tt)

  unfoldable pub handle_slide_sync : String → String → ℤ → Eff W (Option (Unit {0}))
  unfolding sync_as
  handle_slide_sync room id page = do
    conn ← wrapping "get connection" (get room id)
    sync_as room id page conn

  instruct_as : String → String → String → String → Option Connection → Eff W (Unit {0})
  instruct_as room id instruction placeholder none = raise (plain "get connection: nil connection")
  instruct_as room id instruction placeholder (some conn) =
      if not (conn.role == "presenter") then raise (sentinel hands_on_not_presenter) else do
        payload ←
            wrapping "marshal hands_on" (lift (json_marshal (hands_on instruction placeholder)))
        wrapping "broadcast hands_on" (send room payload id)

  unfoldable pub handle_hands_on : String → String → String → String → Eff W (Unit {0})
  unfolding instruct_as
  handle_hands_on room id instruction placeholder = do
    conn ← wrapping "get connection" (get room id)
    instruct_as room id instruction placeholder conn

  unfoldable pub handle_viewer_count : String → String → Eff W (Unit {0})
  handle_viewer_count room id = do
    count ← wrapping "count connections" (count_by_room room)
    payload ← wrapping "marshal viewer_count" (lift (json_marshal (viewer_count count)))
    wrapping "send viewer_count" (send_to_one room id payload)
