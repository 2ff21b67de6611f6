-- ===== src/Effect/Answers.antt =====
-- What a function returns and leaves, as far as a view of the world decides it: `Answers view m s r t`
-- says that `m`, from any world seen as `s`, returns `r` and leaves a world seen as `t`.
use cli_demo.Prelude.{String, ◌≡◌, refl, ◌∙◌, Bool, true, false, if◌then◌else◌}
use cli_demo.GoError.{Error}
use cli_demo.Effect.{
  Result, ok, err, Eff, pure, raise, lift, attempt, continue, ◌>>=◌, wrapping, rewrap, or_return,
  handled,
}
use cli_demo.Effect.Keeps.{Keeps}

pub record Answers {W A S : Type 0} (view : W → S) (m : Eff W A) (s : S) (r : Result A) (t : S)
    : Type 0 where
  pub result : (w : W) → view w ≡ s → (m w).0 ≡ r
  pub after : (w : W) → view w ≡ s → view (m w).1 ≡ t

module _ {W A S : Type 0} {view : W → S} where
  pub Answers-pure : (a : A) (s : S) → Answers view (pure a) s (ok a) s
  unfolding pure
  Answers-pure a s = record { result = λ w e. refl; after = λ w e. e }

  pub Answers-raise : (e : Error) (s : S) → Answers view (raise {A = A} e) s (err e) s
  unfolding raise
  Answers-raise e s = record { result = λ w p. refl; after = λ w p. p }

  pub Answers-lift : (r : Result A) (s : S) → Answers view (lift r) s r s
  unfolding lift
  Answers-lift r s = record { result = λ w e. refl; after = λ w e. e }

  pub Answers-attempt :
      {m : Eff W A} {s t : S} {r : Result A}
      → Answers view m s r t
      → Answers view (attempt m) s (ok r) t
  unfolding attempt
  Answers-attempt h = record { result = λ w e. rw (h.result w e); after = λ w e. h.after w e }

  pub Answers-wrapping :
      (n : String) {m : Eff W A} {s t : S} {r : Result A}
      → Answers view m s r t
      → Answers view (wrapping n m) s (rewrap n r) t
  unfolding wrapping
  Answers-wrapping n h = record { result = λ w e. rw (h.result w e); after = λ w e. h.after w e }

  pub Answers-if :
      (b : Bool) {m n : Eff W A} {s t : S} {r r' : Result A}
      → Answers view m s r t
      → Answers view n s r' t
      → Answers view (if b then m else n) s (if b then r else r') t
  Answers-if true hm hn = hm
  Answers-if false hm hn = hn

-- The same with the result and the view written otherwise.
pub Answers-eq :
    {W A S : Type 0} {view : W → S} {m : Eff W A} {s t t' : S} {r r' : Result A}
    → Answers view m s r t
    → r ≡ r'
    → t ≡ t'
    → Answers view m s r' t'
Answers-eq h e e' = record { result = λ w p. h.result w p ∙ e; after = λ w p. h.after w p ∙ e' }

module _ {W A B S : Type 0} {view : W → S} where
  -- The next step, from whatever the first one returned.
  pub Answers-bind :
      (m : Eff W A) (f : A → Eff W B) {s t u : S} (r : Result A) {q : Result B}
      → Answers view m s r t
      → Answers view (continue r f) t q u
      → Answers view (m >>= f) s q u
  unfolding ◌>>=◌
  Answers-bind m f r h k = record {
    result = λ w e. rw (h.result w e) (k.result (m w).1 (h.after w e));
    after = λ w e. rw (h.result w e) (k.after (m w).1 (h.after w e));
  }

-- What a function leaves, whatever it returns: from any world seen as `s`, a world seen as `t`.
pub record Becomes {W A S : Type 0} (view : W → S) (m : Eff W A) (s t : S) : Type 0 where
  pub at : (w : W) → view w ≡ s → view (m w).1 ≡ t

module _ {W A S : Type 0} {view : W → S} where
  pub Becomes-keeps : {m : Eff W A} {s : S} → Keeps (λ w. view w ≡ s) m → Becomes view m s s
  Becomes-keeps k = record { at = k.at }

  pub Becomes-if :
      (b : Bool) {m n : Eff W A} {s t u : S}
      → Becomes view m s t
      → Becomes view n s u
      → Becomes view (if b then m else n) s (if b then t else u)
  Becomes-if true hm hn = hm
  Becomes-if false hm hn = hn

module _ {W A R S : Type 0} {view : W → S} where
  -- The function after a call keeps what the call has left.
  pub Becomes-or_return :
      {m : Eff W A} {s t : S} {r : Result A} (f : Error → Eff W R) (k : A → Eff W R)
      → Answers view m s r t
      → ((e : Error) → Keeps (λ w. view w ≡ t) (f e))
      → ((a : A) → Keeps (λ w. view w ≡ t) (k a))
      → Becomes view (or_return m f k) s t
  unfolding or_return attempt ◌>>=◌
  Becomes-or_return {m} {s} {t} f k h kf kk = record {
    at = λ w p. go (m w).0 (m w).1 (h.after w p);
  }
    where
      go : (r : Result A) (w : W) → view w ≡ t → view (handled f k r w).1 ≡ t
      go (ok a) w p = (kk a).at w p
      go (err e) w p = (kf e).at w p

  pub Becomes-or_return-lift :
      {s t : S} {r : Result A} {a : A} (f : Error → Eff W R) (k : A → Eff W R)
      → r ≡ ok a
      → Becomes view (k a) s t
      → Becomes view (or_return (lift r) f k) s t
  unfolding or_return attempt ◌>>=◌ lift handled
  Becomes-or_return-lift f k e h = record { at = λ w p. rw e (h.at w p) }
