-- ===== src/Effect.antt =====
-- Go functions that call services and may fail: the state of the world outside goes in and comes
-- back, beside the error too, since what was written before an error stays written.
pub mod Keeps
pub mod Commit
pub mod Ends
pub mod Opened
pub mod Answers
use cli_demo.Prelude.{String, ◌≡◌, refl, ◌⊎◌, inl, inr, Option, none, some}
use cli_demo.GoError.{Error, wrap, plain}

pub data Result {ℓ} (A : Type ℓ) : Type ℓ where
  ok : A → Result A
  err : Error → Result A

abbrev pub Eff : Type 0 → Type 0 → Type 0
Eff W A = W → Result A × W

module _ {W A : Type 0} where
  unfoldable pub pure : A → Eff W A
  pure a w = (ok a, w)

  unfoldable pub raise : Error → Eff W A
  raise e w = (err e, w)

  unfoldable pub lift : Result A → Eff W A
  lift r w = (r, w)

  -- The result as a value, for code that looks at `err` itself.
  unfoldable pub attempt : Eff W A → Eff W (Result A)
  attempt m w = (ok (m w).0, (m w).1)

module _ {W A B : Type 0} where
  abbrev pub continue : Result A → (A → Eff W B) → Eff W B
  continue (ok a) f w = f a w
  continue (err e) f w = (err e, w)

  infixl 10 ◌>>=◌ ◌>>◌
  unfoldable pub ◌>>=◌ : Eff W A → (A → Eff W B) → Eff W B
  unfolding pure raise lift attempt
  ◌>>=◌ m f w = continue (m w).0 f (m w).1

  abbrev pub ◌>>◌ : Eff W A → Eff W B → Eff W B
  m >> n = m >>= λ _. n

-- if err != nil { return fmt.Errorf("…: %w", err) }
abbrev pub rewrap {ℓ} : {A : Type ℓ} → String → Result A → Result A
rewrap m (ok a) = ok a
rewrap m (err e) = err (wrap m e)

module _ {W A : Type 0} where
  unfoldable pub wrapping : String → Eff W A → Eff W A
  wrapping m f w = (rewrap m (f w).0, (f w).1)

pub Result-cases :
    {A : Type 0} (r : Result A) → ((a : A) × (r ≡ ok a)) ⊎ ((e : Error) × (r ≡ err e))
Result-cases (ok a) = inl (a, refl)
Result-cases (err e) = inr (e, refl)

module _ {W A R : Type 0} where
  unfoldable pub handled : (Error → Eff W R) → (A → Eff W R) → Result A → Eff W R
  handled f k (ok a) = k a
  handled f k (err e) = f e

  -- x, err := m; if err != nil { return f(err) }; the rest.
  unfoldable pub or_return : Eff W A → (Error → Eff W R) → (A → Eff W R) → Eff W R
  unfolding handled
  or_return m f k = attempt m >>= handled f k

-- Where a loop has run out of fuel, the rest never runs.
module _ {W A : Type 0} where
  returned : Option A → Eff W A
  returned none = raise (plain "no value")
  returned (some a) = pure a

  unfoldable pub value_of : Eff W (Option A) → Eff W A
  unfolding returned
  value_of m = m >>= returned
