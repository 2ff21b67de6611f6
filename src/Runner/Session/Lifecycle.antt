-- ===== src/Runner/Session/Lifecycle.antt =====
-- runner/session.go: what the methods of the manager do to the map of sessions.
use mathlib.Core.Path.{subst}
use cli_demo.Prelude.{
  String, ◌≡◌, refl, sym, ap, ◌⊎◌, inl, inr, List, [], ◌∷◌, Option, none, some, All, string_eq,
}
use cli_demo.Prelude.Dict.{Dict, lookup, insert, without}
use cli_demo.GoError.{Error, sentinel, session_not_found}
use cli_demo.Effect.{Result, ok, err, Eff, pure, raise, ◌>>=◌}
use cli_demo.Effect.Ends.{
  Ends, Post, Any, Ends-pure, Ends-raise, Ends-bind, Ends-wrapping, Ends-attempt_both, Ends-weaken,
  Ends-and, Ends-keeps,
}
use cli_demo.Effect.Keeps.{Keeps, Keeps-pure, Keeps-raise, Keeps-bind, Keeps-attempt}
use cli_demo.Runner.Session.{
  SessionManager, Managed, outside, sessions, set_sessions, store_new, create, found, get,
  delete_found, delete, finished, close_each, close_all, first_error,
}

module _ {W S : Type 0} (m : SessionManager W S) where
  module _ (t : Dict String S) where
    abbrev Holds : Managed W S → Type 0
    Holds w = w.0 ≡ t

    outside-Holds : {A : Type 0} (f : Eff W A) → Ends Holds (outside f) (λ _. Holds) (λ _. Holds)
    unfolding outside
    outside-Holds {A} f = record { at = λ w p. go (f w.1).0 (f w.1).1 w.0 p }
      where
        go :
            (r : Result A) (v : W) (u : Dict String S)
            → u ≡ t
            → Post (λ _. Holds) (λ _. Holds) r (u, v)
        go (ok a) v u p = p
        go (err e) v u p = p

    sessions-Holds :
        {A : Type 0} (f : Dict String S → Eff (Managed W S) A) (Q : A → Managed W S → Type 0)
        (E : Error → Managed W S → Type 0)
        → Ends Holds (f t) Q E
        → Ends Holds (sessions >>= f) Q E
    unfolding sessions ◌>>=◌
    sessions-Holds f Q E h = record {
      at = λ w p. subst (λ u. Post Q E (f u w).0 (f u w).1) (sym p) (h.at w p);
    }

    set_sessions-Ends :
        (u : Dict String S) → Ends Holds (set_sessions u) (λ _ w. w.0 ≡ u) (λ _. Holds)
    unfolding set_sessions
    set_sessions-Ends u = record { at = λ w p. refl }

    -- One new session, whose id no other had.
    abbrev pub Added : String × S → Managed W S → Type 0
    Added r w = (lookup r.0 t ≡ none) × (w.0 ≡ insert r.0 r.1 t)

    store_new-Added :
        (id : String) (shell : S) (o : Option S)
        → lookup id t ≡ o
        → Ends Holds (store_new m id shell t o) Added (λ _. Holds)
    unfolding store_new
    store_new-Added id shell (some old) e =
        Ends-bind _ _ (λ _. Holds) (Ends-attempt_both _ (outside-Holds (m.close shell)))
          (λ _. Ends-raise _ (λ w p. p))
    store_new-Added id shell none e =
        Ends-bind _ _ (λ _ w. w.0 ≡ insert id shell t) (set_sessions-Ends _)
          (λ _. Ends-pure _ (λ w p. (e, p)))

    -- Create adds one session under an id that no session had, and returns it; where it
    -- fails, the map of sessions is as it was.
    pub create-Added : Ends Holds (create m) Added (λ _. Holds)
    unfolding create
    create-Added =
        Ends-bind _ _ (λ _. Holds) (outside-Holds m.gen_id)
          (λ id.
            Ends-bind _ _ (λ _. Holds) (Ends-wrapping _ _ (outside-Holds m.new_shell))
              (λ shell. sessions-Holds _ _ _ (store_new-Added id shell (lookup id t) refl)))

    -- The session is gone, also where its shell failed to close; or there was none.
    abbrev pub Removed : String → Managed W S → Type 0
    Removed id w = (w.0 ≡ without id t) × ((s : S) × (lookup id t ≡ some s))

    abbrev pub NotRemoved : String → Error → Managed W S → Type 0
    NotRemoved id e w =
        Removed id w ⊎ ((e ≡ sentinel session_not_found) × (lookup id t ≡ none) × (w.0 ≡ t))

  outside-both :
      {A : Type 0} (P : Dict String S → Type 0) (f : Eff W A)
      → Ends (λ w. P w.0) (outside f) (λ _ w. P w.0) (λ _ w. P w.0)
  unfolding outside
  outside-both {A} P f = record { at = λ w p. go (f w.1).0 (f w.1).1 w.0 p }
    where
      go :
          (r : Result A) (v : W) (u : Dict String S)
          → P u
          → Post {W = Managed W S} (λ _ w. P w.0) (λ _ w. P w.0) r (u, v)
      go (ok a) v u p = p
      go (err e) v u p = p

  set_then :
      (t u : Dict String S)
      → Ends {W = Managed W S} (λ w. w.0 ≡ t) (set_sessions u) (λ _ w. w.0 ≡ u) (λ _ w. ⊥)
  unfolding set_sessions
  set_then t u = record { at = λ w p. refl }

  delete_found-Removed :
      (t : Dict String S) (id : String) (o : Option S)
      → lookup id t ≡ o
      → Ends (λ w. w.0 ≡ t) (delete_found m id t o) (λ _. Removed t id) (NotRemoved t id)
  unfolding delete_found
  delete_found-Removed t id none e = Ends-raise _ (λ w p. inr (refl, e, p))
  delete_found-Removed t id (some s) e =
      Ends-bind _ _ (λ _. Removed t id)
        (Ends-weaken (λ w p. p) (λ a w q. (q, (s, e))) (λ e w q. absurd q)
          (set_then t (without id t)))
        (λ _.
          Ends-weaken (λ w p. p) (λ a w q. q) (λ e w q. inl q)
            (outside-both (λ u. (u ≡ without id t) × ((s : S) × (lookup id t ≡ some s)))
              (m.close s)))

  -- Delete of a session that exists removes it and no other, also where its shell fails to
  -- close; Delete of one that does not exist fails with that error and leaves the map as it
  -- was.
  pub delete-Removed :
      (t : Dict String S) (id : String)
      → Ends (λ w. w.0 ≡ t) (delete m id) (λ _. Removed t id) (NotRemoved t id)
  unfolding delete
  delete-Removed t id = sessions-Holds t _ _ _ (delete_found-Removed t id (lookup id t) refl)

  -- `Closed s w`: closing the shell `s` was tried.
  module _ (Closed : S → W → Type 0)
      (closes : (s : S) → Ends Any (m.close s) (λ _. Closed s) (λ _. Closed s))
      (stays : (s r : S) → Keeps (Closed s) (m.close r)) where
    abbrev pub AllClosed : List S → Managed W S → Type 0
    AllClosed ss w = All (λ s. Closed s w.1) ss

    outside-stays : (s r : S) → Keeps (λ w. Closed s w.1) (outside {S = S} (m.close r))
    unfolding outside
    outside-stays s r = record { at = λ w p. (stays s r).at w.1 p }

    outside-closes :
        (s : S)
        → Ends {W = Managed W S} Any
            (outside (m.close s))
            (λ _ w. Closed s w.1)
            (λ _ w. Closed s w.1)
    unfolding outside
    outside-closes s = record {
      at = λ w p. go (m.close s w.1).0 (m.close s w.1).1 w.0 ((closes s).at w.1 tt);
    }
      where
        go :
            (r : Result (Unit {0})) (v : W) (u : Dict String S)
            → Post (λ _. Closed s) (λ _. Closed s) r v
            → Post {W = Managed W S} (λ _ w. Closed s w.1) (λ _ w. Closed s w.1) r (u, v)
        go (ok a) v u p = p
        go (err e) v u p = p

    finished-keeps : (s : S) (o : Option Error) → Keeps (λ w. Closed s w.1) (finished m o)
    unfolding finished
    finished-keeps s none = Keeps-pure tt
    finished-keeps s (some e) = Keeps-raise e

    close_each-stays :
        (s : S) (ss : List S) (first : Option Error)
        → Keeps (λ w. Closed s w.1) (close_each m ss first)
    unfolding close_each
    close_each-stays s [] first = finished-keeps s first
    close_each-stays s (r ∷ ss) first =
        Keeps-bind _ _ (Keeps-attempt _ (outside-stays s r)) (λ x. close_each-stays s ss _)

    finished-AllClosed :
        (o : Option Error) → Ends Any (finished m o) (λ _. AllClosed []) (λ _. AllClosed [])
    unfolding finished
    finished-AllClosed none = Ends-pure _ (λ w p. tt)
    finished-AllClosed (some e) = Ends-raise _ (λ w p. tt)

    close_each-AllClosed :
        (ss : List S) (first : Option Error)
        → Ends Any (close_each m ss first) (λ _. AllClosed ss) (λ _. AllClosed ss)
    unfolding close_each
    close_each-AllClosed [] first = finished-AllClosed first
    close_each-AllClosed (s ∷ ss) first =
        Ends-bind _ _ (λ _ w. Closed s w.1) (Ends-attempt_both _ (outside-closes s))
          (λ r.
            Ends-weaken (λ w p. p) (λ a w q. q) (λ e w q. q)
              (Ends-and _ (Ends-keeps _ (close_each-stays s ss (first_error m first r))) (
                Ends-weaken (λ w p. tt) (λ a w q. q) (λ e w q. q)
                  (close_each-AllClosed ss (first_error m first r)))))

    -- CloseAll tries to close every shell that the map gives, in any order, also after one
    -- of them failed to close. Closing a shell is recorded, and no other closing forgets the
    -- record.
    pub close_all-AllClosed :
        (range : Dict String S → List S) (t : Dict String S)
        → Ends
            (λ w. w.0 ≡ t)
            (close_all m range)
            (λ _. AllClosed (range t))
            (λ _. AllClosed (range t))
    unfolding close_all
    close_all-AllClosed range t = sessions-Holds t _ _ _ (
        Ends-bind _ _ (λ _. Any)
          (Ends-weaken (λ w p. p) (λ a w q. tt) (λ e w q. absurd q) (set_then t []))
          (λ _. close_each-AllClosed (range t) none))

-- Get gives the shell of the session, and changes nothing.
module _ {W S : Type 0} (m : SessionManager W S) (t : Dict String S) (P : W → Type 0) where
  pub get-Ends :
      (id : String)
      → Ends
          (λ w. (w.0 ≡ t) × P w.1)
          (get m id)
          (λ shell w. (lookup id t ≡ some shell) × ((w.0 ≡ t) × P w.1))
          (λ e w. (e ≡ sentinel session_not_found) × ((w.0 ≡ t) × P w.1))
  unfolding get sessions found ◌>>=◌ pure raise
  get-Ends id = record { at = λ w p. go (lookup id w.0) w (ap (lookup id) (sym p.0)) p }
    where
      go :
          (o : Option S) (w : Managed W S)
          → lookup id t ≡ o
          → (w.0 ≡ t) × P w.1
          → Post
              (λ shell w. (lookup id t ≡ some shell) × ((w.0 ≡ t) × P w.1))
              (λ e w. (e ≡ sentinel session_not_found) × ((w.0 ≡ t) × P w.1))
              (found m o w).0
              (found m o w).1
      go (some shell) w e p = (e, p)
      go none w e p = (refl, p)
