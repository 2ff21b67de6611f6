-- ===== src/Runner/Register/Retries.antt =====
-- runner/register.go: that a runner which the broker accepts in the end is registered.
use cli_demo.Prelude.{
  ℕ, zero, suc, ◌≤◌, ◌<◌, String, ◌≡◌, refl, ◌⊎◌, inl, inr, false, Option, some, ◌==◌, nat_eq,
  arith,
}
use cli_demo.Effect.{Eff, ◌>>◌}
use cli_demo.Effect.Ends.{Ends, Ends-pure, Ends-if, Ends-bind, Ends-or_return, Ends-weaken}
use cli_demo.Runner.Register.{RegisterDeps, register}

-- `turns w`: how many attempts fail before the broker accepts one. An attempt when it is 0 is answered
-- with 201; waiting ends, and makes it less.
pub record IsAccepting {W : Type 0} (deps : RegisterDeps W) (turns : W → ℕ) : Type 0 where
  pub posts :
      (url content_type body : String) (n : ℕ)
      → Ends
          (λ w. turns w ≤ n)
          (deps.http_post url content_type body)
          (λ status w. (turns w ≤ n) × ((status ≡ 201) ⊎ (0 < turns w)))
          (λ e w. (turns w ≤ n) × (0 < turns w))
  pub waits :
      (n : ℕ)
      → Ends (λ w. (turns w ≤ suc n) × (0 < turns w)) deps.wait (λ _ w. turns w ≤ n) (λ e w. ⊥)

module _ {W : Type 0} (deps : RegisterDeps W) (turns : W → ℕ) (law : IsAccepting deps turns) where
  abbrev Registered : ℕ → Eff W (Option (Unit {0})) → Type 0
  Registered n m = Ends (λ w. turns w ≤ n) m (λ o w. o ≡ some tt) (λ e w. ⊥)

  -- After a failed attempt, when the loop does what it should with one turn less.
  retry-Registered :
      (n : ℕ) (rest : Eff W (Option (Unit {0})))
      → ((k : ℕ) → n ≡ suc k → Registered k rest)
      → Ends
          (λ w. (turns w ≤ n) × (0 < turns w))
          (deps.wait >> rest)
          (λ o w. o ≡ some tt)
          (λ e w. ⊥)
  retry-Registered zero rest h = record { at = λ w p. absurd (omega (arith, p)) }
  retry-Registered (suc n) rest h = Ends-bind _ _ _ (law.waits n) (λ u. h n refl)

  answered :
      (status : ℕ) (w : W) (n : ℕ)
      → (status == 201) ≡ false
      → (turns w ≤ n) × ((status ≡ 201) ⊎ (0 < turns w))
      → (turns w ≤ n) × (0 < turns w)
  answered status w n e (le, inl is_created) = absurd (ground (arith, e, is_created))
  answered status w n e (le, inr positive) = (le, positive)

  -- A runner that the broker accepts after at most `n` failed attempts is registered, given
  -- fuel for more than `n` attempts: the loop ends without an error. An attempt when none is
  -- left to fail is answered with 201, and waiting between attempts ends and brings the broker
  -- one attempt closer.
  pub register-Registered :
      (fuel n : ℕ)
      → n < fuel
      → Ends (λ w. turns w ≤ n) (register deps fuel) (λ o w. o ≡ some tt) (λ e w. ⊥)
  unfolding register
  register-Registered zero n h = absurd (omega arith)
  register-Registered (suc fuel) n h =
      let retry =
        retry-Registered n (register deps fuel) (λ k e. register-Registered fuel k (omega arith)) in
      Ends-or_return _ _ _ _ _ (law.posts _ _ _ n) (λ e. retry)
        (λ status.
          Ends-if (status == 201) _ _ (λ created. Ends-pure _ (λ w p. refl))
            (λ other.
              Ends-weaken (λ w p. answered status w n other p) (λ o w q. q) (λ e w q. q) retry))
