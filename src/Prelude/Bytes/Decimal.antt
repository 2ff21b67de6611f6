-- ===== src/Prelude/Bytes/Decimal.antt =====
-- Decimals: the digits of a number, and the number that digits give.
use Prim.Native.Nat.{ℕ, zero, suc, ◌+◌, ◌-◌, ◌*◌, ◌/◌, ◌%◌, ◌^◌, ◌<◌, ◌≤◌}
use mathlib.Core.Path.{◌≡◌, refl, ap, ◌∙◌}
use mathlib.Core.Logic.{inl, inr}
use mathlib.Core.Bool.{true, false}
use mathlib.Core.Option.{some}
use mathlib.Core.List.{[], ◌∷◌}
use native.Mathlib.Omega.{arith}
use cli_demo.Prelude.Tests.{ltb, leb, ltb→lt, Bool-cases}
use cli_demo.Prelude.Lists.{All}
use cli_demo.Prelude.Equality.{◌==◌, nat_eq}
use cli_demo.Prelude.Int.{pos}
use cli_demo.Prelude.Bytes.{Bytes, decimal_from, decimal, digits_value, in_range, unsigned, atoi}

abbrev pub IsDigit : ℕ → Type 0
IsDigit c = (48 ≤ c) × (c ≤ 57)

decimal_from-IsDigit :
    (fuel n : ℕ) (out : Bytes) → All IsDigit out → All IsDigit (decimal_from fuel n out)
unfolding decimal_from
decimal_from-IsDigit zero n out h = h
decimal_from-IsDigit (suc fuel) n out h = elim (Bool-cases (ltb n 10)) [
  | inl small ↦ rw small ((omega arith, (let lt = ltb→lt n 10 small in omega arith)), h)
  | inr large ↦
      rw large
        (decimal_from-IsDigit fuel (n / 10) ((48 + n % 10) ∷ out) ((omega arith, omega arith), h))
]

pub decimal-IsDigit : (n : ℕ) → All IsDigit (decimal n)
unfolding decimal
decimal-IsDigit n = decimal_from-IsDigit (suc n) n [] tt

digit_step :
    (a d : ℕ) (out : Bytes)
    → d < 10
    → digits_value a ((48 + d) ∷ out) ≡ digits_value (a * 10 + d) out
unfolding digits_value
digit_step a d out h =
    let low : leb 48 (48 + d) ≡ true = ground arith in
    let high : leb (48 + d) 57 ≡ true = ground arith in
    let value : 48 + d - 48 ≡ d = omega arith in
    rw (low, high) (ap (λ e. digits_value (a * 10 + e) out) value)

digits_value-decimal_from :
    (fuel n : ℕ) (out : Bytes)
    → n < fuel
    → digits_value 0 (decimal_from fuel n out) ≡ digits_value n out
unfolding decimal_from
digits_value-decimal_from zero n out h = absurd (omega arith)
digits_value-decimal_from (suc fuel) n out h = elim (Bool-cases (ltb n 10)) [
  | inl small ↦
      rw small (digit_step 0 n out (ltb→lt n 10 small) ∙ ap (λ k. digits_value k out) (omega arith))
  | inr large ↦ rw large (
      digits_value-decimal_from fuel (n / 10) ((48 + n % 10) ∷ out) (ground arith)
      ∙ digit_step (n / 10) (n % 10) out (omega arith)
      ∙ ap (λ k. digits_value k out) (omega arith))
]

abbrev IsCons : Bytes → Type 0
IsCons [] = ⊥
IsCons (c ∷ s) = Unit

decimal_from-IsCons : (fuel n c : ℕ) (out : Bytes) → IsCons (decimal_from fuel n (c ∷ out))
unfolding decimal_from
decimal_from-IsCons zero n c out = tt
decimal_from-IsCons (suc fuel) n c out = elim (Bool-cases (ltb n 10)) [
  | inl small ↦ rw small tt
  | inr large ↦ rw large (decimal_from-IsCons fuel (n / 10) (48 + n % 10) (c ∷ out))
]

decimal-IsCons : (n : ℕ) → IsCons (decimal n)
unfolding decimal decimal_from
decimal-IsCons n = elim (Bool-cases (ltb n 10)) [
  | inl small ↦ rw small tt
  | inr large ↦ rw large (decimal_from-IsCons n (n / 10) (48 + n % 10) [])
]

atoi-digits :
    (s : Bytes) (n : ℕ)
    → IsCons s
    → All IsDigit s
    → digits_value 0 s ≡ some n
    → n ≤ 2 ^ 63 - 1
    → atoi s ≡ some (pos n)
unfolding atoi in_range unsigned
atoi-digits [] n k h e b = absurd k
atoi-digits (c ∷ s) n k h e b =
    let minus : (c == 45) ≡ false = ground arith in
    let plus : (c == 43) ≡ false = ground arith in
    let held : leb n (2 ^ 63 - 1) ≡ true = ground arith in rw (minus, plus, e, held) refl

-- An int64 that is not negative is printed and read back.
pub atoi-decimal : (n : ℕ) → n ≤ 2 ^ 63 - 1 → atoi (decimal n) ≡ some (pos n)
unfolding decimal digits_value
atoi-decimal n h =
    atoi-digits (decimal n) n (decimal-IsCons n) (decimal-IsDigit n)
      (digits_value-decimal_from (suc n) n [] (omega arith)) h
