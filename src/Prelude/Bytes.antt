-- ===== src/Prelude/Bytes.antt =====
pub mod Splitting
pub mod Decimal
-- Text as the numbers of its characters, for code that walks bytes: prefixes, lines, decimals.
use Prim.Native.Nat.{ℕ, zero, suc, ◌+◌, ◌-◌, ◌*◌, ◌/◌, ◌%◌, ◌^◌, ◌<◌, ◌≤◌}
use Prim.Native.Char.{code}
use Prim.Native.String.{String, ◌++◌ as ◌<>◌}
use mathlib.Core.Path.{◌≡◌, refl, sym, ap, ◌∙◌}
use mathlib.Core.Bool.{Bool, true, false, ◌&&◌}
use mathlib.Core.Option.{Option, none, some}
use mathlib.Core.List.{List, [], ◌∷◌, ◌++◌}
use native.Mathlib.Omega.{arith}
use cli_demo.Prelude.Tests.{ltb, leb, if◌then◌else◌}
use cli_demo.Prelude.Equality.{◌==◌, nat_eq}
use cli_demo.Prelude.Int.{ℤ, pos, negsuc}

abbrev pub Bytes : Type 0
Bytes = List ℕ

abbrev pub codes : String → Bytes
codes String.[] = []
codes (String.◌∷◌ c s) = code c ∷ codes s

abbrev pub newline : ℕ
newline = b'\n'

-- What follows the prefix: strings.HasPrefix, and the slice after it.
unfoldable pub strip_prefix : Bytes → Bytes → Option Bytes
strip_prefix [] s = some s
strip_prefix (c ∷ p) [] = none
strip_prefix (c ∷ p) (d ∷ s) = let rest = strip_prefix p s in if c == d then rest else none

pub strip_prefix-append : (p s : Bytes) → strip_prefix p (p ++ s) ≡ some s
unfolding strip_prefix
strip_prefix-append [] s = refl
strip_prefix-append (c ∷ p) s = ground (arith, strip_prefix-append p s)

-- strings.Index: what stands before and after the first occurrence.
abbrev found_at : Bytes → Option Bytes → Option (Bytes × Bytes) → ℕ → Option (Bytes × Bytes)
found_at m (some after) rest c = some ([], after)
found_at m none none c = none
found_at m none (some (a, b)) c = some (c ∷ a, b)

abbrev at_end : Option Bytes → Option (Bytes × Bytes)
at_end none = none
at_end (some after) = some ([], after)

unfoldable pub split_first : Bytes → Bytes → Option (Bytes × Bytes)
split_first m [] = at_end (strip_prefix m [])
split_first m (c ∷ s) = let rest = split_first m s in found_at m (strip_prefix m (c ∷ s)) rest c

-- %d of a number that is not negative: the digits, on fuel for as many as it has.
decimal_from : ℕ → ℕ → Bytes → Bytes
decimal_from zero n out = out
decimal_from (suc fuel) n out =
    let more = decimal_from fuel (n / 10) ((48 + n % 10) ∷ out) in
    if ltb n 10 then (48 + n) ∷ out else more

unfoldable pub decimal : ℕ → Bytes
unfolding decimal_from
decimal n = decimal_from (suc n) n []

-- The same as a string.
abbrev digit_at : List String → ℕ → String
digit_at [] n = ""
digit_at (d ∷ ds) n = if n == 0 then d else digit_at ds (n - 1)

abbrev digit_text : ℕ → String
digit_text = digit_at ("0" ∷ "1" ∷ "2" ∷ "3" ∷ "4" ∷ "5" ∷ "6" ∷ "7" ∷ "8" ∷ "9" ∷ [])

decimal_text_from : ℕ → ℕ → String
decimal_text_from zero n = ""
decimal_text_from (suc fuel) n =
    let more = decimal_text_from fuel (n / 10) in
    if ltb n 10 then digit_text n else more <> digit_text (n % 10)

unfoldable pub decimal_text : ℕ → String
unfolding decimal_text_from
decimal_text n = decimal_text_from (suc n) n

-- strconv.Atoi: a sign or none, digits, and a value that an int64 holds.
digits_value : ℕ → Bytes → Option ℕ
digits_value n [] = some n
digits_value n (c ∷ s) =
    let rest = digits_value (n * 10 + (c - 48)) s in if leb 48 c && leb c 57 then rest else none

abbrev negative : ℕ → ℤ
negative zero = pos zero
negative (suc n) = negsuc n

in_range : ℕ → (ℕ → ℤ) → Option ℕ → Option ℤ
in_range bound sign none = none
in_range bound sign (some n) = if leb n bound then some (sign n) else none

unsigned : Bytes → Option ℕ
unsigned [] = none
unsigned (c ∷ s) = digits_value 0 (c ∷ s)

unfoldable pub atoi : Bytes → Option ℤ
unfolding digits_value in_range unsigned
atoi [] = none
atoi (c ∷ s) =
    if c == 45
    then in_range (2 ^ 63) negative (unsigned s)
    else if c == 43
    then in_range (2 ^ 63 - 1) pos (unsigned s)
    else in_range (2 ^ 63 - 1) pos (unsigned (c ∷ s))
