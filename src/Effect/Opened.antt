-- ===== src/Effect/Opened.antt =====
-- What a program opens and closes: pipes, shells. A set is a test.
use cli_demo.Prelude.{
  ◌≡◌, refl, ap, Bool, true, false, not, ◌&&◌, ◌||◌, Eq, ◌==◌, Bool-cases, inl, inr, arith, List,
  [], ◌∷◌,
}
use cli_demo.Effect.{Eff}
use cli_demo.Effect.Ends.{Ends}

-- A set with one more, and with one less.
abbrev pub with_one : {P : Type 0} → ⦃e : Eq P⦄ → P → (P → Bool) → P → Bool
with_one p s q = (q == p) || s q

abbrev pub without_one : {P : Type 0} → ⦃e : Eq P⦄ → P → (P → Bool) → P → Bool
without_one p s q = not (q == p) && s q

-- Those that are open in a world are the set.
abbrev pub AreOpen : {W P : Type 0} → (W → P → Bool) → (P → Bool) → W → Type 0
AreOpen {P = P} is_open s w = (q : P) → is_open w q ≡ s q

-- A call gives one that was not open, and only this one is opened; or it fails and opens none.
abbrev pub Opens : {W P : Type 0} → ⦃e : Eq P⦄ → (W → P → Bool) → Eff W P → Type 0
Opens {P = P} is_open m =
    (s : P → Bool)
    → Ends (AreOpen is_open s) m (λ p w. (s p ≡ false) × AreOpen is_open (with_one p s) w)
        (λ e w. AreOpen is_open s w)

-- One that was not open is none of those that were.
pub without_one-same :
    {P : Type 0} ⦃e : Eq P⦄ (s : P → Bool) (p q : P) → s p ≡ false → (not (q == p) && s q) ≡ s q
without_one-same ⦃e⦄ s p q new = elim (Bool-cases (q == p)) [
  | inl y ↦ let same = ap s ((e.beq_iff q p).0 y) in ground (arith, y, same, new)
  | inr n ↦ ground (arith, n)
]

pub beq_same : {P : Type 0} ⦃e : Eq P⦄ (p : P) → (p == p) ≡ true
beq_same ⦃e⦄ p = (e.beq_iff p p).1 refl

-- One that is closed right after it was opened.
pub without_one-with_one :
    {P : Type 0} ⦃e : Eq P⦄ (s : P → Bool) (p q : P)
    → s p ≡ false
    → without_one p (with_one p s) q ≡ s q
without_one-with_one s p q new = ground (arith, without_one-same s p q new)

abbrev pub is_in : {P : Type 0} → ⦃e : Eq P⦄ → List P → P → Bool
is_in [] q = false
is_in (p ∷ ps) q = (q == p) || is_in ps q

-- What is left of a set after some are closed one by one.
abbrev pub without_all : {P : Type 0} → ⦃e : Eq P⦄ → List P → (P → Bool) → P → Bool
without_all [] s = s
without_all (p ∷ ps) s = without_all ps (without_one p s)

pub without_all-empty :
    {P : Type 0} ⦃e : Eq P⦄ (ps : List P) (s : P → Bool) (q : P)
    → (s q ≡ true → is_in ps q ≡ true)
    → without_all ps s q ≡ false
without_all-empty [] s q h = elim (Bool-cases (s q)) [
  | inl y ↦ absurd (ground (arith, h y))
  | inr n ↦ n
]
without_all-empty (p ∷ ps) s q h =
    without_all-empty ps (without_one p s) q
      (λ left. let y : s q ≡ true = ground (arith, left) in ground (arith, left, h y))
