-- ===== src/Prelude/Dict/Counting.antt =====
-- How many keys of a finite map pass a test, before and after a write.
use mathlib.Core.Path.{◌≡◌, refl}
use mathlib.Core.Bool.{Bool, true, false}
use mathlib.Core.Option.{none, some}
use mathlib.Core.List.{[], ◌∷◌}
use Prim.Native.Nat.{ℕ, ◌+◌}
use native.Mathlib.Omega.{arith}
use cli_demo.Prelude.Equality.{Eq}
use cli_demo.Prelude.Dict.{Dict, lookup, without, insert, lookup-without}

abbrev pub one_if : Bool → ℕ
one_if true = 1
one_if false = 0

module _ {ℓ κ} {K : Type ℓ} {V : Type κ} where
  unfoldable pub count_keys : (K → Bool) → Dict K V → ℕ
  count_keys p [] = 0
  count_keys p ((k, v) ∷ m) = one_if (p k) + count_keys p m

module _ {ℓ κ} {K : Type ℓ} {V : Type κ} ⦃e : Eq K⦄ where
  -- No key has two entries.
  abbrev pub IsUnique : Dict K V → Type κ
  IsUnique [] = Unit
  IsUnique ((k, v) ∷ m) = (lookup k m ≡ none) × IsUnique m

  pub without_absent : (k : K) (m : Dict K V) → lookup k m ≡ none → without k m ≡ m
  unfolding lookup without
  without_absent k [] h = refl
  without_absent k ((j, v) ∷ m) h = ground (arith, without_absent k m)

  pub without-IsUnique : (k : K) (m : Dict K V) → IsUnique m → IsUnique (without k m)
  unfolding without
  without-IsUnique k [] u = u
  without-IsUnique k ((j, v) ∷ m) u = ground (arith, without-IsUnique k m u.1, lookup-without k j m)

  pub insert-IsUnique : (k : K) (v : V) (m : Dict K V) → IsUnique m → IsUnique (insert k v m)
  unfolding insert
  insert-IsUnique k v m u =
      (ground (arith, lookup-without k k m, e.beq_iff k k), without-IsUnique k m u)

  pub count_keys-without :
      (p : K → Bool) (k : K) (m : Dict K V) {v : V}
      → IsUnique m
      → lookup k m ≡ some v
      → count_keys p m ≡ count_keys p (without k m) + one_if (p k)
  unfolding lookup without count_keys
  count_keys-without p k [] u h = ground arith
  count_keys-without p k ((j, w) ∷ m) {v} u h = ground (
    arith,
    λ (f : lookup k m ≡ some v). count_keys-without p k m u.1 f,
    without_absent k m,
    e.beq_iff j k,
  )

  pub count_keys-insert_new :
      (p : K → Bool) (k : K) (v : V) (m : Dict K V)
      → lookup k m ≡ none
      → count_keys p (insert k v m) ≡ one_if (p k) + count_keys p m
  unfolding insert count_keys
  count_keys-insert_new p k v m h = ground (arith, without_absent k m)

  pub count_keys-insert_old :
      (p : K → Bool) (k : K) (v : V) (m : Dict K V) {w : V}
      → IsUnique m
      → lookup k m ≡ some w
      → count_keys p (insert k v m) ≡ count_keys p m
  unfolding insert count_keys
  count_keys-insert_old p k v m u h = omega (arith, count_keys-without p k m u h)
