-- ===== src/Effect/Keeps.antt =====
-- What a call leaves as it was: `Keeps P m` says that `m` preserves `P`, with a rule for each way to
-- build a function.
use cli_demo.Prelude.{String, ◌≡◌, refl, Bool, true, false, if◌then◌else◌, Option, none, some}
use cli_demo.GoError.{Error}
use cli_demo.Effect.{
  Result, ok, err, Eff, pure, raise, lift, attempt, continue, ◌>>=◌, wrapping, handled, or_return,
  returned, value_of,
}

pub record Keeps {W A : Type 0} (P : W → Type 0) (m : Eff W A) : Type 0 where
  pub at : (w : W) → P w → P (m w).1

module _ {W A : Type 0} {P : W → Type 0} where
  pub Keeps-pure : (a : A) → Keeps P (pure a)
  unfolding pure
  Keeps-pure a = record { at = λ w h. h }

  pub Keeps-raise : (e : Error) → Keeps P (raise {A = A} e)
  unfolding raise
  Keeps-raise e = record { at = λ w h. h }

  pub Keeps-lift : (r : Result A) → Keeps P (lift r)
  unfolding lift
  Keeps-lift r = record { at = λ w h. h }

  pub Keeps-attempt : (m : Eff W A) → Keeps P m → Keeps P (attempt m)
  unfolding attempt
  Keeps-attempt m k = record { at = λ w h. k.at w h }

  pub Keeps-wrapping : (s : String) (m : Eff W A) → Keeps P m → Keeps P (wrapping s m)
  unfolding wrapping
  Keeps-wrapping s m k = record { at = λ w h. k.at w h }

  pub Keeps-if : (b : Bool) (m n : Eff W A) → Keeps P m → Keeps P n → Keeps P (if b then m else n)
  Keeps-if true m n km kn = km
  Keeps-if false m n km kn = kn

module _ {W A B : Type 0} {P : W → Type 0} where
  Keeps-continue :
      (r : Result A) (f : A → Eff W B) → ((a : A) → Keeps P (f a)) → Keeps P (continue r f)
  Keeps-continue (ok a) f k = k a
  Keeps-continue (err e) f k = record { at = λ w h. h }

  pub Keeps-bind :
      (m : Eff W A) (f : A → Eff W B) → Keeps P m → ((a : A) → Keeps P (f a)) → Keeps P (m >>= f)
  unfolding ◌>>=◌
  Keeps-bind m f km kf = record { at = λ w h. (Keeps-continue (m w).0 f kf).at (m w).1 (km.at w h) }

  -- The rest of the block may use that `r` is no error.
  pub Keeps-bind-wrapping_lift :
      (m : String) (r : Result A) (f : A → Eff W B)
      → ((a : A) → r ≡ ok a → Keeps P (f a))
      → Keeps P (wrapping m (lift r) >>= f)
  unfolding ◌>>=◌ wrapping
  Keeps-bind-wrapping_lift m (ok a) f k = k a refl
  Keeps-bind-wrapping_lift m (err e) f k = record { at = λ w h. h }

module _ {W A R : Type 0} {P : W → Type 0} where
  pub Keeps-or_return :
      (m : Eff W A) (f : Error → Eff W R) (k : A → Eff W R)
      → Keeps P m
      → ((e : Error) → Keeps P (f e))
      → ((a : A) → Keeps P (k a))
      → Keeps P (or_return m f k)
  unfolding or_return attempt ◌>>=◌
  Keeps-or_return m f k km kf kk = record { at = λ w p. go (m w).0 (m w).1 (km.at w p) }
    where
      go : (r : Result A) (w : W) → P w → P (handled f k r w).1
      go (ok a) w p = (kk a).at w p
      go (err e) w p = (kf e).at w p

pub ruleset keeps_rules =
    (Keeps-pure, Keeps-raise, Keeps-lift, Keeps-attempt, Keeps-wrapping, Keeps-if, Keeps-bind)

module _ {W A : Type 0} {P : W → Type 0} where
  returned-keeps : (o : Option A) → Keeps P (returned o)
  unfolding returned
  returned-keeps none = Keeps-raise _
  returned-keeps (some a) = Keeps-pure a

  pub value_of-keeps : (m : Eff W (Option A)) → Keeps P m → Keeps P (value_of m)
  unfolding value_of
  value_of-keeps m k = Keeps-bind _ _ k returned-keeps
