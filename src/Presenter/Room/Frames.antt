-- ===== src/Presenter/Room/Frames.antt =====
-- presenter/internal/roomstate: what reading and saving a page keep.
use cli_demo.Prelude.{String, Option, none, some}
use cli_demo.Prelude.Int.{ℤ}
use cli_demo.Effect.Keeps.{Keeps, keeps_rules}
use cli_demo.Presenter.Room.{Store, page_of, get_state, put_state}

module _ {W I : Type 0} (store : Store W I) (P : W → Type 0) where
  page_of-keeps : (o : Option I) → Keeps P (page_of store o)
  unfolding page_of
  page_of-keeps none = search keeps_rules
  page_of-keeps (some i) = search keeps_rules

  pub get_state-keeps :
      ((room : String) → Keeps P (store.get_item room))
      → (room : String) → Keeps P (get_state store room)
  unfolding get_state
  get_state-keeps reads room = search (keeps_rules, reads, page_of-keeps)

  pub put_state-keeps :
      ((i : I) → Keeps P (store.put_item i))
      → (room : String) (page : ℤ) → Keeps P (put_state store room page)
  unfolding put_state
  put_state-keeps puts room page = search (keeps_rules, puts)
