-- ===== src/Prelude/Bytes/Splitting.antt =====
-- The first occurrence in a text, when the text grows.
use Prim.Native.Nat.{ℕ}
use mathlib.Core.Path.{◌≡◌, refl}
use mathlib.Core.Option.{none}
use mathlib.Core.List.{[], ◌∷◌, ◌++◌}
use native.Mathlib.Omega.{arith}
use cli_demo.Prelude.Equality.{nat_eq}
use cli_demo.Prelude.Bytes.{Bytes, strip_prefix, split_first}

strip_prefix-none : (m a b : Bytes) → strip_prefix m (a ++ b) ≡ none → strip_prefix m a ≡ none
unfolding strip_prefix
strip_prefix-none [] a b h = ground (arith, h)
strip_prefix-none (k ∷ m) [] b h = refl
strip_prefix-none (k ∷ m) (c ∷ a) b h = ground (arith, strip_prefix-none m a b, h)

pub split_first-none :
    (k : ℕ) (m a b : Bytes) → split_first (k ∷ m) (a ++ b) ≡ none → split_first (k ∷ m) a ≡ none
unfolding split_first strip_prefix
split_first-none k m [] b h = refl
split_first-none k m (c ∷ a) b h =
    ground (arith, strip_prefix-none (k ∷ m) (c ∷ a) b, split_first-none k m a b, h)
