-- ===== src/Presenter/Broadcast/Delivery.antt =====
-- presenter/internal/broadcast: whom a broadcast reaches.
use mathlib.Core.Path.{subst}
use mathlib.Core.Bool.{true≢false}
use cli_demo.Prelude.{
  String, ◌≡◌, sym, ◌∙◌, false, List, [], ◌∷◌, All, ◌==◌, string_eq, Bool-cases, inl, inr,
}
use cli_demo.GoError.{Error, is_gone_error}
use cli_demo.Effect.{Result, ok, err}
use cli_demo.Effect.Keeps.{
  Keeps, Keeps-bind, Keeps-pure, Keeps-raise, Keeps-if, Keeps-attempt, Keeps-wrapping,
}
use cli_demo.Effect.Ends.{
  Ends, Post, Any, AnyOf, Ends-pure, Ends-raise, Ends-if, Ends-bind, Ends-any, Ends-keeps,
  Ends-wrapping, Ends-weaken, Ends-and, Ends-attempt_both,
}
use cli_demo.Presenter.Connection.{Connection}
use cli_demo.Presenter.Broadcast.{Broadcaster, posted, send_to_one, send_each, send}

-- `Posted id w`: a message was posted to the connection `id`. Posting makes it true, even where the
-- answer is an error, and no call makes it false.
pub record IsRecorded {W : Type 0} (b : Broadcaster W) (Posted : String → W → Type 0) : Type 0 where
  pub post_records :
      (id payload : String)
      → Ends Any (b.post_to_connection id payload) (λ _. Posted id) (λ _. Posted id)
  pub post_keeps :
      (seen id payload : String) → Keeps (Posted seen) (b.post_to_connection id payload)
  pub delete_keeps : (seen room id : String) → Keeps (Posted seen) (b.delete room id)

-- A failure of the gateway that is not the end of the connection.
abbrev pub NotGone : {W : Type 0} → Error → W → Type 0
NotGone e w = is_gone_error e ≡ false

module _ {W : Type 0} (b : Broadcaster W) where
  module _ (Posted : String → W → Type 0) (law : IsRecorded b Posted) where
    posted-keeps :
        (seen room id : String) (r : Result (Unit {0})) → Keeps (Posted seen) (posted b room id r)
    unfolding posted
    posted-keeps seen room id (ok u) = Keeps-pure tt
    posted-keeps seen room id (err e) =
        Keeps-if (is_gone_error e) _ _
          (Keeps-bind _ _ (Keeps-attempt _ (law.delete_keeps seen room id)) (λ _. Keeps-pure tt))
          (Keeps-raise _)

    posted-NotGone :
        (P : W → Type 0) (room id : String) (r : Result (Unit {0}))
        → Ends P (posted b room id r) AnyOf NotGone
    unfolding posted
    posted-NotGone P room id (ok u) = Ends-pure tt (λ w p. tt)
    posted-NotGone P room id (err e) =
        Ends-if (is_gone_error e) _ _
          (λ _.
            Ends-bind _ _ (λ _. Any) (Ends-attempt_both _ (Ends-any _))
              (λ _. Ends-pure tt (λ w p. tt)))
          (λ differs. Ends-raise _ (λ w p. differs))

    send_to_one-Posted :
        (room id payload : String)
        → Ends Any (send_to_one b room id payload) (λ _. Posted id) NotGone
    unfolding send_to_one
    send_to_one-Posted room id payload =
        Ends-bind _ _ (λ _. Posted id) (Ends-attempt_both _ (law.post_records id payload))
          (λ r.
            Ends-weaken (λ w p. p) (λ a w q. q.0) (λ e w q. q.1)
              (Ends-and _ (Ends-keeps _ (posted-keeps id room id r)) (posted-NotGone _ room id r)))

    send_to_one-keeps :
        (seen room id payload : String) → Keeps (Posted seen) (send_to_one b room id payload)
    unfolding send_to_one
    send_to_one-keeps seen room id payload =
        Keeps-bind _ _ (Keeps-attempt _ (law.post_keeps seen id payload))
          (posted-keeps seen room id)

    -- Every connection of the list but the excluded one was posted to.
    abbrev pub Reached : String → List Connection → W → Type 0
    Reached exclude conns w =
        All (λ c. (c.connection_id == exclude) ≡ false → Posted c.connection_id w) conns

    send_each-keeps :
        (seen payload exclude : String) (conns : List Connection)
        → Keeps (Posted seen) (send_each b payload exclude conns)
    unfolding send_each
    send_each-keeps seen payload exclude [] = Keeps-pure tt
    send_each-keeps seen payload exclude (c ∷ cs) =
        Keeps-if (c.connection_id == exclude) _ _ (send_each-keeps seen payload exclude cs) (
          Keeps-bind _ _ (send_to_one-keeps seen c.room c.connection_id payload)
            (λ _. send_each-keeps seen payload exclude cs))

    send_each-Reached :
        (payload exclude : String) (conns : List Connection)
        → Ends Any (send_each b payload exclude conns) (λ _. Reached exclude conns) NotGone
    unfolding send_each
    send_each-Reached payload exclude [] = Ends-pure tt (λ w p. tt)
    send_each-Reached payload exclude (c ∷ cs) =
        Ends-if (c.connection_id == exclude) _ _
          (λ same.
            Ends-weaken (λ w p. p)
              (λ a w q. (λ differs. absurd (true≢false (sym same ∙ differs)), q)) (λ e w q. q)
              (send_each-Reached payload exclude cs))
          (λ differs.
            Ends-bind _ _ (λ _. Posted c.connection_id)
              (send_to_one-Posted c.room c.connection_id payload)
              (λ _.
                Ends-weaken (λ w p. p) (λ a w q. (λ _. q.1, q.0)) (λ e w q. q.0)
                  (Ends-and _
                    (Ends-weaken (λ w p. tt) (λ a w q. q) (λ e w q. q)
                      (send_each-Reached payload exclude cs))
                    (Ends-keeps _ (send_each-keeps c.connection_id payload exclude cs)))))

    -- A Send without an error has posted to every connection of the room but the excluded
    -- one, also where some of them are gone; and an error of Send is never that a connection
    -- is gone. The query for the room's connections gives a fixed list or an error of
    -- another kind, posting is recorded, and no call forgets the record.
    pub send-Reached :
        (room payload exclude : String) (conns : List Connection)
        → Ends Any (b.query_by_room room) (λ cs w. cs ≡ conns) NotGone
        → Ends Any (send b room payload exclude) (λ _. Reached exclude conns) NotGone
    unfolding send
    send-Reached room payload exclude conns listed =
        Ends-bind _ _ (λ cs w. cs ≡ conns) (Ends-wrapping _ _ listed)
          (λ cs. record {
            at = λ w e.
                subst
                  (λ l.
                    Post (λ _. Reached exclude l) NotGone (send_each b payload exclude cs w).0
                      (send_each b payload exclude cs w).1)
                  e ((send_each-Reached payload exclude cs).at w tt);
          })

  -- What no message to another connection than `exclude` touches.
  module _ (P : W → Type 0) (exclude : String)
      (others : (id payload : String)
        → (id == exclude) ≡ false
        → Keeps P (b.post_to_connection id payload))
      (deletes : (room id : String) → (id == exclude) ≡ false → Keeps P (b.delete room id)) where
    posted-spares :
        (room id : String) (r : Result (Unit {0}))
        → (id == exclude) ≡ false
        → Keeps P (posted b room id r)
    unfolding posted
    posted-spares room id (ok u) differs = Keeps-pure tt
    posted-spares room id (err e) differs =
        Keeps-if (is_gone_error e) _ _
          (Keeps-bind _ _ (Keeps-attempt _ (deletes room id differs)) (λ _. Keeps-pure tt))
          (Keeps-raise _)

    send_each-spares :
        (payload : String) (conns : List Connection) → Keeps P (send_each b payload exclude conns)
    unfolding send_each send_to_one
    send_each-spares payload [] = Keeps-pure tt
    send_each-spares payload (c ∷ cs) = elim (Bool-cases (c.connection_id == exclude)) [
      | inl same ↦ rw same (send_each-spares payload cs)
      | inr differs ↦ rw differs (
          Keeps-bind _ _
            (Keeps-bind _ _ (Keeps-attempt _ (others c.connection_id payload differs))
              (λ r. posted-spares c.room c.connection_id r differs))
            (λ _. send_each-spares payload cs))
    ]

    -- Send leaves as it was whatever only a message to the excluded connection, or its
    -- deletion, could change: neither is done. The query and the calls for other connections
    -- keep it.
    pub send-spares :
        (room payload : String)
        → Keeps P (b.query_by_room room)
        → Keeps P (send b room payload exclude)
    unfolding send
    send-spares room payload k =
        Keeps-bind _ _ (Keeps-wrapping _ _ k) (λ cs. send_each-spares payload cs)
