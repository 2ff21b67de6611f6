-- ===== src/Presenter/Slides/Access.antt =====
-- presenter/internal/slidesync and handson: who may change what a room shows, and in what order.
use cli_demo.Prelude.{String, ◌≡◌, false, not, Option, none, some, ◌==◌, string_eq}
use cli_demo.Prelude.Int.{ℤ}
use cli_demo.Effect.Ends.{
  Ends, Ends-pure, Ends-raise, Ends-if, Ends-bind, Ends-wrapping, Ends-weaken, Ends-lift,
}
use cli_demo.Presenter.Connection.{Connection}
use cli_demo.Presenter.Slides.{Handler, sync_as, handle_slide_sync, instruct_as, handle_hands_on}

-- Not a presenter, as far as a connection was found.
abbrev pub IsViewer : Option Connection → Type 0
IsViewer none = ⊥
IsViewer (some conn) = (conn.role == "presenter") ≡ false

module _ {W : Type 0} (h : Handler W) where
  sync_as-IsViewer :
      (P : W → Type 0) (room id : String) (page : ℤ) (o : Option Connection)
      → Ends (λ w. P w × IsViewer o) (sync_as h room id page o) (λ _ w. ⊥) (λ _. P)
  unfolding sync_as
  sync_as-IsViewer P room id page none = record { at = λ w p. absurd p.1 }
  sync_as-IsViewer P room id page (some conn) = record {
    at = λ w p. rw p.1 ((Ends-raise {Q = λ _ _. ⊥} {E = λ _. P} _ (λ v q. q)).at w p.0);
  }

  instruct_as-IsViewer :
      (P : W → Type 0) (room id instruction placeholder : String) (o : Option Connection)
      → Ends
          (λ w. P w × IsViewer o)
          (instruct_as h room id instruction placeholder o)
          (λ _ w. ⊥)
          (λ _. P)
  unfolding instruct_as
  instruct_as-IsViewer P room id instruction placeholder none = record { at = λ w p. absurd p.1 }
  instruct_as-IsViewer P room id instruction placeholder (some conn) = record {
    at = λ w p. rw p.1 ((Ends-raise {Q = λ _ _. ⊥} {E = λ _. P} _ (λ v q. q)).at w p.0);
  }

  -- Where the connection is found and is not a presenter's, or its lookup fails, slide
  -- synchronisation ends in an error, and what held before and after the lookup still holds:
  -- nothing is saved or sent.
  pub handle_slide_sync-IsViewer :
      (P : W → Type 0) (room id : String) (page : ℤ)
      → Ends P (h.get room id) (λ o w. P w × IsViewer o) (λ _. P)
      → Ends P (handle_slide_sync h room id page) (λ _ w. ⊥) (λ _. P)
  unfolding handle_slide_sync
  handle_slide_sync-IsViewer P room id page viewer =
      Ends-bind _ _ (λ o w. P w × IsViewer o) (Ends-wrapping _ _ viewer)
        (sync_as-IsViewer P room id page)

  -- Where the connection is found and is not a presenter's, or its lookup fails, a hands-on
  -- instruction ends in an error, and what held before and after the lookup still holds:
  -- nothing is sent.
  pub handle_hands_on-IsViewer :
      (P : W → Type 0) (room id instruction placeholder : String)
      → Ends P (h.get room id) (λ o w. P w × IsViewer o) (λ _. P)
      → Ends P (handle_hands_on h room id instruction placeholder) (λ _ w. ⊥) (λ _. P)
  unfolding handle_hands_on
  handle_hands_on-IsViewer P room id instruction placeholder viewer =
      Ends-bind _ _ (λ o w. P w × IsViewer o) (Ends-wrapping _ _ viewer)
        (instruct_as-IsViewer P room id instruction placeholder)

  -- `Shown`: a page was sent to the room; `Saved`: it was saved.
  module _ (room id : String) (page : ℤ) (Shown Saved : W → Type 0)
      (gets : Ends (λ w. ¬ (Shown w)) (h.get room id) (λ _ w. ¬ (Shown w)) (λ _ w. ¬ (Shown w)))
      (saves : Ends (λ w. ¬ (Shown w)) (h.put_state room page) (λ _. Saved) (λ _ w. ¬ (Shown w)))
      (sends : (payload : String)
        → Ends Saved (h.send room payload id) (λ _. Saved) (λ _. Saved)) where
    abbrev Ordered : W → Type 0
    Ordered w = Shown w → Saved w

    sync_as-Ordered :
        (o : Option Connection)
        → Ends (λ w. ¬ (Shown w)) (sync_as h room id page o) (λ _. Ordered) (λ _. Ordered)
    unfolding sync_as
    sync_as-Ordered none = Ends-pure _ (λ w p s. absurd (p s))
    sync_as-Ordered (some conn) =
        Ends-if (not (conn.role == "presenter")) _ _ (λ _. Ends-raise _ (λ w p s. absurd (p s)))
          (λ _.
            Ends-bind _ _ (λ _ w. ¬ (Shown w))
              (Ends-wrapping _ _
                (Ends-weaken (λ w p. p) (λ a w q. q) (λ e w q s. absurd (q s)) (Ends-lift _)))
              (λ payload.
                Ends-bind _ _ (λ _. Saved)
                  (Ends-wrapping _ _
                    (Ends-weaken (λ w p. p) (λ a w q. q) (λ e w q s. absurd (q s)) saves))
                  (λ _.
                    Ends-bind _ _ (λ _. Saved)
                      (Ends-wrapping _ _
                        (Ends-weaken (λ w p. p) (λ a w q. q) (λ e w q _. q) (sends payload)))
                      (λ _. Ends-pure _ (λ w p _. p)))))

    -- However slide synchronisation ends, a page that was shown to the room was saved
    -- before: if nothing had been shown before the call, then after it the page is saved if
    -- it was shown. Reading the connection shows nothing, saving without an error saves the
    -- page and never shows it, and sending does not undo that.
    pub handle_slide_sync-Ordered :
        Ends (λ w. ¬ (Shown w)) (handle_slide_sync h room id page) (λ _. Ordered) (λ _. Ordered)
    unfolding handle_slide_sync
    handle_slide_sync-Ordered =
        Ends-bind _ _ (λ _ w. ¬ (Shown w))
          (Ends-wrapping _ _ (Ends-weaken (λ w p. p) (λ a w q. q) (λ e w q s. absurd (q s)) gets))
          sync_as-Ordered
