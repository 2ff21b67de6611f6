-- ===== src/Effect/Ends.antt =====
-- How a call ends: `Ends P m Q E` says that a call of `m` from a world with `P` that returns `a` leaves
-- a world with `Q a`, and that one that fails with `e` leaves a world with `E e`; a rule for each way
-- to build a function.
use cli_demo.Prelude.{String, ◌≡◌, refl, Bool, true, false, if◌then◌else◌}
use cli_demo.GoError.{Error, wrap}
use cli_demo.Effect.Keeps.{Keeps}
use cli_demo.Effect.{
  Result, ok, err, Eff, pure, raise, lift, attempt, continue, ◌>>=◌, wrapping, rewrap, handled,
  or_return,
}

abbrev pub Post : {W A : Type 0} → (A → W → Type 0) → (Error → W → Type 0) → Result A → W → Type 0
Post Q E (ok a) w = Q a w
Post Q E (err e) w = E e w

pub record Ends {W A : Type 0} (P : W → Type 0) (m : Eff W A) (Q : A → W → Type 0)
    (E : Error → W → Type 0) : Type 0 where
  pub at : (w : W) → P w → Post Q E (m w).0 (m w).1

module _ {W A : Type 0} {P : W → Type 0} {Q : A → W → Type 0} {E : Error → W → Type 0} where
  pub Ends-pure : (a : A) → ((w : W) → P w → Q a w) → Ends P (pure a) Q E
  unfolding pure
  Ends-pure a h = record { at = h }

  pub Ends-raise : (e : Error) → ((w : W) → P w → E e w) → Ends P (raise e) Q E
  unfolding raise
  Ends-raise e h = record { at = h }

  pub Ends-wrapping :
      (s : String) (m : Eff W A) → Ends P m Q (λ e. E (wrap s e)) → Ends P (wrapping s m) Q E
  unfolding wrapping
  Ends-wrapping s m h = record { at = λ w p. go (m w).0 (m w).1 (h.at w p) }
    where
      go : (r : Result A) (w : W) → Post Q (λ e. E (wrap s e)) r w → Post Q E (rewrap s r) w
      go (ok a) w q = q
      go (err e) w q = q

  pub Ends-if :
      (b : Bool) (m n : Eff W A)
      → (b ≡ true → Ends P m Q E)
      → (b ≡ false → Ends P n Q E)
      → Ends P (if b then m else n) Q E
  Ends-if true m n hm hn = hm refl
  Ends-if false m n hm hn = hn refl

  -- The result as a value.
  pub Ends-attempt :
      {F : Error → W → Type 0} (m : Eff W A) → Ends P m Q E → Ends P (attempt m) (Post Q E) F
  unfolding attempt
  Ends-attempt m h = record { at = λ w p. h.at w p }

module _ {W A B : Type 0} {P : W → Type 0} {Q : B → W → Type 0} {E : Error → W → Type 0} where
  pub Ends-bind :
      (m : Eff W A) (f : A → Eff W B) (M : A → W → Type 0)
      → Ends P m M E
      → ((a : A) → Ends (M a) (f a) Q E)
      → Ends P (m >>= f) Q E
  unfolding ◌>>=◌
  Ends-bind m f M hm hf = record { at = λ w p. go (m w).0 (m w).1 (hm.at w p) }
    where
      go : (r : Result A) (w : W) → Post M E r w → Post Q E (continue r f w).0 (continue r f w).1
      go (ok a) w h = (hf a).at w h
      go (err e) w h = h

-- Nothing is known.
abbrev pub Any : {W : Type 0} → W → Type 0
Any w = Unit

abbrev pub AnyOf : {W A : Type 0} → A → W → Type 0
AnyOf a w = Unit

pub Ends-any : {W A : Type 0} {P : W → Type 0} (m : Eff W A) → Ends P m AnyOf AnyOf
Ends-any {W} {A} m = record { at = λ w p. go (m w).0 (m w).1 }
  where
    go : (r : Result A) (w : W) → Post AnyOf AnyOf r w
    go (ok a) w = tt
    go (err e) w = tt

pub Ends-keeps :
    {W A : Type 0} {P : W → Type 0} (m : Eff W A) → Keeps P m → Ends P m (λ _. P) (λ _. P)
Ends-keeps {W} {A} {P} m k = record { at = λ w p. go (m w).0 (m w).1 (k.at w p) }
  where
    go : (r : Result A) (w : W) → P w → Post (λ _. P) (λ _. P) r w
    go (ok a) w h = h
    go (err e) w h = h

module _ {W A : Type 0} {P P' : W → Type 0} {Q Q' : A → W → Type 0}
    {E E' : Error → W → Type 0} where
  pub Ends-weaken :
      {m : Eff W A}
      → ((w : W) → P' w → P w)
      → ((a : A) (w : W) → Q a w → Q' a w)
      → ((e : Error) (w : W) → E e w → E' e w)
      → Ends P m Q E
      → Ends P' m Q' E'
  Ends-weaken {m} p q e h = record { at = λ w x. go (m w).0 (m w).1 (h.at w (p w x)) }
    where
      go : (r : Result A) (w : W) → Post Q E r w → Post Q' E' r w
      go (ok a) w x = q a w x
      go (err b) w x = e b w x

module _ {W A : Type 0} {P : W → Type 0} {Q Q' : A → W → Type 0} {E E' : Error → W → Type 0} where
  pub Ends-and :
      (m : Eff W A)
      → Ends P m Q E
      → Ends P m Q' E'
      → Ends P m (λ a w. Q a w × Q' a w) (λ e w. E e w × E' e w)
  Ends-and m h h' = record { at = λ w x. go (m w).0 (m w).1 (h.at w x) (h'.at w x) }
    where
      go :
          (r : Result A) (w : W)
          → Post Q E r w
          → Post Q' E' r w
          → Post (λ a w. Q a w × Q' a w) (λ e w. E e w × E' e w) r w
      go (ok a) w x y = (x, y)
      go (err b) w x y = (x, y)

-- A fact that is known before the call, and does not depend on the world.
pub Ends-known :
    {W A X : Type 0} {P : W → Type 0} {m : Eff W A} {Q : A → W → Type 0} {E : Error → W → Type 0}
    → (X → Ends P m Q E)
    → Ends (λ w. X × P w) m Q E
Ends-known h = record { at = λ w p. (h p.0).at w p.1 }

-- What a call leaves, whether it fails or not.
pub Ends-attempt_both :
    {W A : Type 0} {P R : W → Type 0} {F : Error → W → Type 0} (m : Eff W A)
    → Ends P m (λ _. R) (λ _. R)
    → Ends P (attempt m) (λ _. R) F
unfolding attempt
Ends-attempt_both {W} {A} {P} {R} m h = record { at = λ w p. go (m w).0 (m w).1 (h.at w p) }
  where
    go : (r : Result A) (w : W) → Post (λ _. R) (λ _. R) r w → R w
    go (ok a) w x = x
    go (err e) w x = x

pub Ends-lift : {W A : Type 0} {P : W → Type 0} (r : Result A) → Ends P (lift r) (λ _. P) (λ _. P)
unfolding lift
Ends-lift (ok a) = record { at = λ w p. p }
Ends-lift (err e) = record { at = λ w p. p }

-- What holds of the world however the call ends.
pub Ends-drop :
    {W A : Type 0} {P R : W → Type 0} {m : Eff W A}
    → Ends P m (λ _. R) (λ _. R)
    → (w : W) → P w
    → R (m w).1
Ends-drop {W} {A} {P} {R} {m} h w p = go (m w).0 (m w).1 (h.at w p)
  where
    go : (r : Result A) (w : W) → Post (λ _. R) (λ _. R) r w → R w
    go (ok a) w x = x
    go (err e) w x = x

module _ {W A R : Type 0} {P : W → Type 0} where
  -- The rest may use what is ensured of the result.
  pub Keeps-or_return_ends :
      (Q : A → Type 0) (m : Eff W A) (f : Error → Eff W R) (k : A → Eff W R)
      → Keeps P m
      → Ends P m (λ a w. Q a) AnyOf
      → ((e : Error) → Keeps P (f e))
      → ((a : A) → Q a → Keeps P (k a))
      → Keeps P (or_return m f k)
  unfolding or_return attempt ◌>>=◌
  Keeps-or_return_ends Q m f k km em kf kk = record {
    at = λ w p. go (m w).0 (m w).1 (km.at w p) (em.at w p);
  }
    where
      go : (r : Result A) (w : W) → P w → Post (λ a w. Q a) AnyOf r w → P (handled f k r w).1
      go (ok a) w p q = (kk a q).at w p
      go (err e) w p q = (kf e).at w p

module _ {W A R : Type 0} {P : W → Type 0} {Q : R → W → Type 0} {E : Error → W → Type 0} where
  pub Ends-or_return :
      (m : Eff W A) (f : Error → Eff W R) (k : A → Eff W R) (M : A → W → Type 0)
      (F : Error → W → Type 0)
      → Ends P m M F
      → ((e : Error) → Ends (F e) (f e) Q E)
      → ((a : A) → Ends (M a) (k a) Q E)
      → Ends P (or_return m f k) Q E
  unfolding or_return attempt ◌>>=◌
  Ends-or_return m f k M F hm hf hk = record { at = λ w p. go (m w).0 (m w).1 (hm.at w p) }
    where
      go : (r : Result A) (w : W) → Post M F r w → Post Q E (handled f k r w).0 (handled f k r w).1
      go (ok a) w p = (hk a).at w p
      go (err e) w p = (hf e).at w p

module _ {W A R : Type 0} {P : W → Type 0} {Q : R → W → Type 0} {E : Error → W → Type 0} where
  -- The rest may use the result that was looked at.
  pub Ends-or_return_lift :
      (r : Result A) (f : Error → Eff W R) (k : A → Eff W R)
      → ((e : Error) → r ≡ err e → Ends P (f e) Q E)
      → ((a : A) → r ≡ ok a → Ends P (k a) Q E)
      → Ends P (or_return (lift r) f k) Q E
  unfolding or_return lift attempt ◌>>=◌
  Ends-or_return_lift (ok a) f k hf hk = record { at = λ w p. (hk a refl).at w p }
  Ends-or_return_lift (err e) f k hf hk = record { at = λ w p. (hf e refl).at w p }

module _ {W A B : Type 0} {P : W → Type 0} {Q : B → W → Type 0} where
  -- Where nothing is said of errors.
  pub Ends-bind_lift :
      (s : String) (r : Result A) (f : A → Eff W B)
      → ((a : A) → r ≡ ok a → Ends P (f a) Q AnyOf)
      → Ends P (wrapping s (lift r) >>= f) Q AnyOf
  unfolding ◌>>=◌ wrapping lift
  Ends-bind_lift s (ok a) f h = record { at = λ w p. (h a refl).at w p }
  Ends-bind_lift s (err e) f h = record { at = λ w p. tt }

-- The rest may use that `r` is the result.
pub Ends-lift_equal :
    {W A : Type 0} {P : W → Type 0} {Q : A → W → Type 0} {E : Error → W → Type 0} (r : Result A)
    → ((a : A) → r ≡ ok a → (w : W) → P w → Q a w)
    → ((e : Error) (w : W) → P w → E e w)
    → Ends P (lift r) Q E
unfolding lift
Ends-lift_equal (ok a) q e = record { at = q a refl }
Ends-lift_equal (err x) q e = record { at = e x }

pub Ends-Keeps :
    {W A : Type 0} {P : W → Type 0} {m : Eff W A} → Ends P m (λ _ _. ⊥) (λ _. P) → Keeps P m
Ends-Keeps {W} {A} {P} {m} h = record { at = λ w p. go (m w).0 (m w).1 (h.at w p) }
  where
    go : (r : Result A) (w : W) → Post (λ _ _. ⊥) (λ _. P) r w → P w
    go (ok a) w x = absurd x
    go (err e) w x = x

-- The rest of a block, for the values that the first part returns.
pub Keeps-bind_ends :
    {W A B : Type 0} {P : W → Type 0} (Q : A → Type 0) (m : Eff W A) (f : A → Eff W B)
    → Keeps P m
    → Ends P m (λ a w. Q a) AnyOf
    → ((a : A) → Q a → Keeps P (f a))
    → Keeps P (m >>= f)
unfolding ◌>>=◌
Keeps-bind_ends {W} {A} {B} {P} Q m f km ends kf = record {
  at = λ w p. go (m w).0 (m w).1 (km.at w p) (ends.at w p);
}
  where
    go : (r : Result A) (w : W) → P w → Post (λ a w. Q a) AnyOf r w → P (continue r f w).1
    go (ok a) w p q = (kf a q).at w p
    go (err e) w p q = p
