-- ===== src/Presenter/Slides/Frames.antt =====
-- presenter/internal/slidesync, handson and viewercount: what the handlers keep.
use cli_demo.Prelude.{String, Option, none, some}
use cli_demo.Prelude.Int.{ℤ}
use cli_demo.Effect.Keeps.{Keeps, keeps_rules}
use cli_demo.Presenter.Connection.{Connection}
use cli_demo.Presenter.Slides.{
  Handler, sync_as, handle_slide_sync, instruct_as, handle_hands_on, handle_viewer_count,
}

module _ {W : Type 0} (h : Handler W) (P : W → Type 0) where
  module _ (gets : (room id : String) → Keeps P (h.get room id))
      (sends : (room payload id : String) → Keeps P (h.send room payload id)) where
    module _ (saves : (room : String) (page : ℤ) → Keeps P (h.put_state room page)) where
      sync_as-keeps :
          (room id : String) (page : ℤ) (o : Option Connection) → Keeps P (sync_as h room id page o)
      unfolding sync_as
      sync_as-keeps room id page none = search keeps_rules
      sync_as-keeps room id page (some conn) = search (keeps_rules, saves, sends) depth 9

      pub handle_slide_sync-keeps :
          (room id : String) (page : ℤ) → Keeps P (handle_slide_sync h room id page)
      unfolding handle_slide_sync
      handle_slide_sync-keeps room id page = search (keeps_rules, gets, sync_as-keeps)

    instruct_as-keeps :
        (room id instruction placeholder : String) (o : Option Connection)
        → Keeps P (instruct_as h room id instruction placeholder o)
    unfolding instruct_as
    instruct_as-keeps room id instruction placeholder none = search keeps_rules
    instruct_as-keeps room id instruction placeholder (some conn) =
        search (keeps_rules, sends) depth 9

    pub handle_hands_on-keeps :
        (room id instruction placeholder : String)
        → Keeps P (handle_hands_on h room id instruction placeholder)
    unfolding handle_hands_on
    handle_hands_on-keeps room id instruction placeholder =
        search (keeps_rules, gets, instruct_as-keeps)

  pub handle_viewer_count-keeps :
      ((room : String) → Keeps P (h.count_by_room room))
      → ((room id payload : String) → Keeps P (h.send_to_one room id payload))
      → (room id : String) → Keeps P (handle_viewer_count h room id)
  unfolding handle_viewer_count
  handle_viewer_count-keeps counts answers room id = search (keeps_rules, counts, answers)
