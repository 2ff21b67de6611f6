-- ===== src/Presenter/Room.antt =====
-- presenter/internal/roomstate: the page that a room shows.
pub mod Frames
use cli_demo.Prelude.{String, ◌<>◌, List, Option, none, some}
use cli_demo.Prelude.Int.{ℤ, pos}
use cli_demo.Effect.{Result, ok, err, Eff, pure, raise, lift, ◌>>=◌, ◌>>◌, wrapping}

pub record State : Type 0 where
  pub room : String
  pub page : ℤ

pub record Store (W I : Type 0) : Type 0 where
  pub put_item : I → Eff W (Unit {0})
  pub get_item : String → Eff W (Option I)
  pub marshal_map : State → Result I
  pub unmarshal_map : I → Result State

module _ {W I : Type 0} (store : Store W I) where
  open store use {put_item, get_item, marshal_map, unmarshal_map}

  unfoldable pub put_state : String → ℤ → Eff W (Unit {0})
  put_state room page = do
    item ← wrapping "marshal state" (lift (marshal_map (record { room = room; page = page })))
    wrapping "put state" (put_item item)

  page_of : Option I → Eff W ℤ
  page_of none = pure (pos 0)
  page_of (some i) = do state ← wrapping "unmarshal state" (lift (unmarshal_map i)); pure state.page

  unfoldable pub get_state : String → Eff W ℤ
  unfolding page_of
  get_state room = do item ← wrapping "get state" (get_item room); page_of item
