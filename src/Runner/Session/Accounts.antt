-- ===== src/Runner/Session/Accounts.antt =====
-- runner/session.go: the shells that are open, and the sessions that there are.
use mathlib.Core.Path.{subst}
use cli_demo.Prelude.{
  String, ◌≡◌, refl, sym, ap, ◌∙◌, Bool, true, false, Eq, ◌==◌, ◌⊎◌, inl, inr, List, [], ◌∷◌,
  Option, none, some, string_eq, eq_iff, Bool-cases, arith,
}
use cli_demo.Prelude.Dict.{Dict, lookup, insert, without, lookup-insert, lookup-without}
use cli_demo.GoError.{Error}
use cli_demo.Effect.{Result, ok, err, Eff, ◌>>=◌}
use cli_demo.Effect.Keeps.{Keeps, Keeps-pure, Keeps-raise}
use cli_demo.Effect.Opened.{
  with_one, without_one, AreOpen, Opens, beq_same, without_one-with_one, is_in, without_all,
  without_all-empty,
}
use cli_demo.Effect.Ends.{
  Ends, Post, Ends-pure, Ends-raise, Ends-bind, Ends-known, Ends-wrapping, Ends-weaken,
  Ends-attempt_both, Ends-drop,
}
use cli_demo.Runner.Session.{
  SessionManager, Managed, outside, sessions, set_sessions, store_new, create, found, get,
  delete_found, delete, finished, first_error, close_each, close_all,
}

-- Which shells are open: a new shell was not open and is the only one that opens, and closing a shell
-- closes that one and no other, also where it fails.
pub record IsTracked {W S : Type 0} ⦃eq : Eq S⦄ (m : SessionManager W S) (is_open : W → S → Bool)
    : Type 0 where
  pub gen_id_keeps :
      (s : S → Bool)
      → Ends (AreOpen is_open s) m.gen_id (λ _. AreOpen is_open s) (λ _. AreOpen is_open s)
  pub new_shell_opens : Opens is_open m.new_shell
  pub closes :
      (x : S) (s : S → Bool)
      → Ends
          (AreOpen is_open s)
          (m.close x)
          (λ _. AreOpen is_open (without_one x s))
          (λ _. AreOpen is_open (without_one x s))

-- The open shells are exactly those of the sessions, and no two sessions have the same.
pub record Matches {S : Type 0} (t : Dict String S) (s : S → Bool) : Type 0 where
  pub held_open : (id : String) (x : S) → lookup id t ≡ some x → s x ≡ true
  pub open_held : (x : S) → s x ≡ true → (id : String) × (lookup id t ≡ some x)
  pub once : (id id' : String) (x : S) → lookup id t ≡ some x → lookup id' t ≡ some x → id ≡ id'

-- An entry of a map with one more, or one less.
lookup-insert-cases :
    {S : Type 0} (id j : String) (x y : S) (t : Dict String S)
    → lookup j (insert id x t) ≡ some y
    → ((id ≡ j) × (x ≡ y)) ⊎ (lookup j t ≡ some y)
lookup-insert-cases id j x y t h = elim (Bool-cases (id == j)) [
  | inl e ↦
      let found : some x ≡ some y = ground (arith, lookup-insert id j x t, h, e) in
      inl ((eq_iff id j).0 e, cc found)
  | inr e ↦ inr (ground (arith, lookup-insert id j x t, h, e))
]

lookup-insert_same :
    {S : Type 0} (id : String) (x : S) (t : Dict String S) → lookup id (insert id x t) ≡ some x
lookup-insert_same id x t = ground (arith, lookup-insert id id x t, beq_same id)

lookup-insert_other :
    {S : Type 0} (id j : String) (x y : S) (t : Dict String S)
    → lookup id t ≡ none
    → lookup j t ≡ some y
    → lookup j (insert id x t) ≡ some y
lookup-insert_other id j x y t free h = elim (Bool-cases (id == j)) [
  | inl e ↦
      let taken : lookup j t ≡ none = subst (λ k. lookup k t ≡ none) ((eq_iff id j).0 e) free in
      absurd (ground (arith, taken, h))
  | inr e ↦ ground (arith, lookup-insert id j x t, h, e)
]

lookup-without-cases :
    {S : Type 0} (id j : String) (y : S) (t : Dict String S)
    → lookup j (without id t) ≡ some y
    → ((id == j) ≡ false) × (lookup j t ≡ some y)
lookup-without-cases id j y t h = elim (Bool-cases (id == j)) [
  | inl e ↦ absurd (ground (arith, lookup-without id j t, h, e))
  | inr e ↦ (e, ground (arith, lookup-without id j t, h, e))
]

module _ {S : Type 0} ⦃eq : Eq S⦄ where
  Matches-same :
      (t : Dict String S) (s s' : S → Bool) → ((x : S) → s' x ≡ s x) → Matches t s → Matches t s'
  Matches-same t s s' same h = record {
    held_open = λ id x e. same x ∙ h.held_open id x e;
    open_held = λ x e. h.open_held x (sym (same x) ∙ e);
    once = h.once;
  }

  insert-Matches :
      (id : String) (x : S) (t : Dict String S) (s : S → Bool)
      → lookup id t ≡ none
      → s x ≡ false
      → Matches t s
      → Matches (insert id x t) (with_one x s)
  insert-Matches id x t s free new h = record {
    held_open = λ j y e. held j y (lookup-insert-cases id j x y t e);
    open_held = λ y e. elim (Bool-cases (y == x)) [
      | inl same ↦ (id, lookup-insert_same id x t ∙ ap some (sym ((eq.beq_iff y x).0 same)))
      | inr other ↦
          let p = h.open_held y (ground (arith, e, other)) in
          (p.0, lookup-insert_other id p.0 x y t free p.1)
    ];
    once = λ j k y e f.
        one j k y (lookup-insert-cases id j x y t e) (lookup-insert-cases id k x y t f);
  }
    where
      held :
          (j : String) (y : S)
          → ((id ≡ j) × (x ≡ y)) ⊎ (lookup j t ≡ some y)
          → with_one x s y ≡ true
      held j y (inl p) = subst (λ z. with_one x s z ≡ true) p.1 (ground (arith, beq_same x))
      held j y (inr e) = ground (arith, h.held_open j y e)

      closed : (j : String) (y : S) → x ≡ y → lookup j t ≡ some y → ⊥
      closed j y same e =
          let opened : s x ≡ true = subst (λ z. s z ≡ true) (sym same) (h.held_open j y e) in
          absurd (ground (arith, opened, new))

      one :
          (j k : String) (y : S)
          → ((id ≡ j) × (x ≡ y)) ⊎ (lookup j t ≡ some y)
          → ((id ≡ k) × (x ≡ y)) ⊎ (lookup k t ≡ some y)
          → j ≡ k
      one j k y (inl p) (inl q) = sym p.0 ∙ q.0
      one j k y (inl p) (inr f) = absurd (closed k y p.1 f)
      one j k y (inr e) (inl q) = absurd (closed j y q.1 e)
      one j k y (inr e) (inr f) = h.once j k y e f

  without-Matches :
      (id : String) (x : S) (t : Dict String S) (s : S → Bool)
      → lookup id t ≡ some x
      → Matches t s
      → Matches (without id t) (without_one x s)
  without-Matches id x t s at_id h = record {
    held_open =
        λ j y e. let p = lookup-without-cases id j y t e in held j y p.0 p.1 (Bool-cases (y == x));
    open_held = λ y e.
        let p = h.open_held y (ground (arith, e)) in
        (p.0, kept p.0 y (ground (arith, e)) p.1 (Bool-cases (id == p.0)));
    once = λ j k y e f.
        h.once j k y (lookup-without-cases id j y t e).1 (lookup-without-cases id k y t f).1;
  }
    where
      held :
          (j : String) (y : S)
          → (id == j) ≡ false
          → lookup j t ≡ some y
          → ((y == x) ≡ true) ⊎ ((y == x) ≡ false)
          → without_one x s y ≡ true
      held j y n e (inl same) =
          let e' : lookup j t ≡ some x = e ∙ ap some ((eq.beq_iff y x).0 same) in
          let j' = h.once id j x at_id e' in absurd (ground (arith, n, (eq_iff id j).1 j'))
      held j y n e (inr other) = ground (arith, other, h.held_open j y e)

      kept :
          (j : String) (y : S)
          → (y == x) ≡ false
          → lookup j t ≡ some y
          → ((id == j) ≡ true) ⊎ ((id == j) ≡ false)
          → lookup j (without id t) ≡ some y
      kept j y n e (inl same) =
          let found : lookup j t ≡ some x =
            subst (λ k. lookup k t ≡ some x) ((eq_iff id j).0 same) at_id in
          let both : some x ≡ some y = sym found ∙ e in
          let y' : x ≡ y = cc both in absurd (ground (arith, n, (eq.beq_iff y x).1 (sym y')))
      kept j y n e (inr other) = ground (arith, lookup-without id j t, e, other)

module _ {W S : Type 0} ⦃eq : Eq S⦄ (m : SessionManager W S) (is_open : W → S → Bool)
    (law : IsTracked m is_open) where
  abbrev pub IsAccounted : Managed W S → Type 0
  IsAccounted w = Matches w.0 (is_open w.1)

  -- The map is `t`, and the open shells are `s`.
  abbrev At : Dict String S → (S → Bool) → Managed W S → Type 0
  At t s w = (w.0 ≡ t) × AreOpen is_open s w.1

  outside-At :
      {A : Type 0} {Q : A → W → Type 0} {E : Error → W → Type 0} (t : Dict String S) (s : S → Bool)
      (f : Eff W A)
      → Ends (AreOpen is_open s) f Q E
      → Ends (At t s) (outside f) (λ a w. (w.0 ≡ t) × Q a w.1) (λ e w. (w.0 ≡ t) × E e w.1)
  unfolding outside
  outside-At {A} {Q} {E} t s f h = record {
    at = λ w p. go (f w.1).0 (f w.1).1 w.0 p.0 (h.at w.1 p.1);
  }
    where
      go :
          (r : Result A) (v : W) (u : Dict String S)
          → u ≡ t
          → Post Q E r v
          → Post {W = Managed W S}
              (λ a w. (w.0 ≡ t) × Q a w.1)
              (λ e w. (w.0 ≡ t) × E e w.1)
              r
              (u, v)
      go (ok a) v u p q = (p, q)
      go (err x) v u p q = (p, q)

  sessions-At :
      {A : Type 0} (t : Dict String S) (s : S → Bool) (f : Dict String S → Eff (Managed W S) A)
      (Q : A → Managed W S → Type 0) (E : Error → Managed W S → Type 0)
      → Ends (At t s) (f t) Q E
      → Ends (At t s) (sessions >>= f) Q E
  unfolding sessions ◌>>=◌
  sessions-At t s f Q E h = record {
    at = λ w p. subst (λ u. Post Q E (f u w).0 (f u w).1) (sym p.0) (h.at w p);
  }

  set_sessions-At :
      (t u : Dict String S) (s : S → Bool) {E : Error → Managed W S → Type 0}
      → Ends (At t s) (set_sessions u) (λ _. At u s) E
  unfolding set_sessions
  set_sessions-At t u s = record { at = λ w p. (refl, p.1) }

  At-IsAccounted :
      (t : Dict String S) (s : S → Bool)
      → Matches t s
      → (w : Managed W S) → At t s w
      → IsAccounted w
  At-IsAccounted t s h w p =
      subst (λ u. Matches u (is_open w.1)) (sym p.0) (Matches-same t s (is_open w.1) p.1 h)

  module _ (t : Dict String S) (s : S → Bool) (h : Matches t s) where
    store_new-IsAccounted :
        (id : String) (x : S) (o : Option S)
        → s x ≡ false
        → lookup id t ≡ o
        → Ends (At t (with_one x s)) (store_new m id x t o) (λ _. IsAccounted) (λ _. IsAccounted)
    unfolding store_new
    store_new-IsAccounted id x (some old) new e =
        Ends-bind _ _ (λ _. At t (without_one x (with_one x s)))
          (Ends-attempt_both _ (outside-At t _ _ (law.closes x (with_one x s))))
          (λ _.
            Ends-raise _
              (λ w p. At-IsAccounted t s h w (p.0, (λ q. p.1 q ∙ without_one-with_one s x q new))))
    store_new-IsAccounted id x none new e =
        Ends-bind _ _ (λ _. At (insert id x t) (with_one x s)) (set_sessions-At t (insert id x t) _)
          (λ _. Ends-pure _ (At-IsAccounted _ _ (insert-Matches id x t s e new h)))

    create-At : Ends (At t s) (create m) (λ _. IsAccounted) (λ _. IsAccounted)
    unfolding create
    create-At =
        Ends-bind _ _ (λ _. At t s)
          (Ends-weaken (λ w p. p) (λ a w q. q) (λ e w q. At-IsAccounted t s h w q)
            (outside-At t s _ (law.gen_id_keeps s)))
          (λ id.
            Ends-bind _ _ (λ x w. (s x ≡ false) × At t (with_one x s) w)
              (Ends-wrapping _ _ (
                Ends-weaken (λ w p. p) (λ x w q. (q.1.0, (q.0, q.1.1)))
                  (λ e w q. At-IsAccounted t s h w q) (outside-At t s _ (law.new_shell_opens s))))
              (λ x.
                Ends-known (λ new.
                  sessions-At t _ _ _ _ (store_new-IsAccounted id x (lookup id t) new refl))))

    delete_found-IsAccounted :
        (id : String) (o : Option S)
        → lookup id t ≡ o
        → Ends (At t s) (delete_found m id t o) (λ _. IsAccounted) (λ _. IsAccounted)
    unfolding delete_found
    delete_found-IsAccounted id none e = Ends-raise _ (At-IsAccounted t s h)
    delete_found-IsAccounted id (some x) e =
        let rest = At-IsAccounted _ _ (without-Matches id x t s e h) in
        Ends-bind _ _ (λ _. At (without id t) s) (set_sessions-At t (without id t) s)
          (λ _.
            Ends-weaken (λ w p. p) (λ a w q. rest w q) (λ e w q. rest w q)
              (outside-At (without id t) s _ (law.closes x s)))

    delete-At : (id : String) → Ends (At t s) (delete m id) (λ _. IsAccounted) (λ _. IsAccounted)
    unfolding delete
    delete-At id = sessions-At t s _ _ _ (delete_found-IsAccounted id (lookup id t) refl)

  -- Create and Delete leave exactly the shells of the sessions open.
  pub create-IsAccounted : Keeps IsAccounted (create m)
  create-IsAccounted = record {
    at = λ w p. Ends-drop (create-At w.0 (is_open w.1) p) w (refl, (λ q. refl));
  }

  pub delete-IsAccounted : (id : String) → Keeps IsAccounted (delete m id)
  delete-IsAccounted id = record {
    at = λ w p. Ends-drop (delete-At w.0 (is_open w.1) p id) w (refl, (λ q. refl));
  }

  found-IsAccounted : (o : Option S) → Keeps IsAccounted (found m o)
  unfolding found
  found-IsAccounted none = Keeps-raise _
  found-IsAccounted (some s) = Keeps-pure s

  pub get-IsAccounted : (id : String) → Keeps IsAccounted (get m id)
  unfolding get sessions ◌>>=◌
  get-IsAccounted id = record { at = λ w p. (found-IsAccounted (lookup id w.0)).at w p }

  -- A call outside that opens and closes nothing.
  pub outside-keeps_accounts :
      {A : Type 0} (f : Eff W A)
      → ((w : W) (x : S) → is_open (f w).1 x ≡ is_open w x)
      → Keeps IsAccounted (outside {S = S} f)
  unfolding outside
  outside-keeps_accounts f k = record { at = λ w p. Matches-same w.0 (is_open w.1) _ (k w.1) p }

  finished-Closed :
      (s : S → Bool) (o : Option Error)
      → Ends (At [] s) (finished m o) (λ _. At [] s) (λ _. At [] s)
  unfolding finished
  finished-Closed s none = Ends-pure _ (λ w p. p)
  finished-Closed s (some e) = Ends-raise _ (λ w p. p)

  close_each-Closed :
      (xs : List S) (s : S → Bool) (o : Option Error)
      → Ends
          (At [] s)
          (close_each m xs o)
          (λ _. At [] (without_all xs s))
          (λ _. At [] (without_all xs s))
  unfolding close_each
  close_each-Closed [] s o = finished-Closed s o
  close_each-Closed (x ∷ xs) s o =
      Ends-bind _ _ (λ _. At [] (without_one x s))
        (Ends-attempt_both _ (outside-At [] s _ (law.closes x s)))
        (λ r. close_each-Closed xs (without_one x s) (first_error m o r))

  -- CloseAll leaves no shell open and no session, where the map gives each of its shells.
  pub close_all-Closed :
      (range : Dict String S → List S) (t : Dict String S) (s : S → Bool)
      → Matches t s
      → ((id : String) (x : S) → lookup id t ≡ some x → is_in (range t) x ≡ true)
      → Ends (At t s) (close_all m range) (λ _. At [] (λ x. false)) (λ _. At [] (λ x. false))
  unfolding close_all
  close_all-Closed range t s h all = sessions-At t s _ _ _ (
      Ends-bind _ _ (λ _. At [] s) (set_sessions-At t [] s)
        (λ _.
          Ends-weaken (λ w p. p) (λ a w q. closed w q) (λ e w q. closed w q)
            (close_each-Closed (range t) s none)))
    where
      closed : (w : Managed W S) → At [] (without_all (range t) s) w → At [] (λ x. false) w
      closed w q = (
        q.0,
        (λ x.
            q.1 x
            ∙ without_all-empty (range t) s x (λ y. let p = h.open_held x y in all p.0 x p.1)),
      )
