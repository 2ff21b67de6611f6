-- ===== src/Runner/LlmValidator/Attempts.antt =====
-- runner/llm_validator.go: how often Validate asks the model, and how it ends.
use cli_demo.Prelude.{ℕ, zero, suc, ◌+◌, ◌≤◌, ◌<◌, String, ◌≡◌, refl, ◌∙◌, ap, ◌⊎◌, inl, inr, arith}
use cli_demo.GoError.{Error, wrap, validation_unavailable}
use cli_demo.Effect.{Result, ok, err}
use cli_demo.Effect.Ends.{Ends, Post, Ends-pure, Ends-raise, Ends-or_return, Ends-weaken}
use cli_demo.Runner.LlmValidator.{
  parsed, BedrockValidator, ConverseInput, ConverseOutput, converse_input, ValidationResult,
  parse_tool_use_result, attempts, validate,
}

module _ {W D : Type 0} (v : BedrockValidator W D) (calls : W → ℕ)
    (counts : (input : ConverseInput) (w : W) → calls (v.converse input w).1 ≡ suc (calls w)) where
  abbrev pub Counted : ℕ → W → Type 0
  Counted n w = calls w ≡ n

  -- An answer that the model gave.
  abbrev Gave : ConverseInput → ConverseOutput D → Type 0
  Gave input out = (w : W) × ((v.converse input w).0 ≡ ok out)

  converse-Ends :
      (input : ConverseInput) (n : ℕ)
      → Ends
          (Counted n)
          (v.converse input)
          (λ out w. Counted (suc n) w × Gave input out)
          (λ e. Counted (suc n))
  converse-Ends input n = record {
    at = λ w p. go w (v.converse input w).0 refl (counts input w ∙ ap suc p);
  }
    where
      go :
          (w : W) (r : Result (ConverseOutput D))
          → (v.converse input w).0 ≡ r
          → Counted (suc n) (v.converse input w).1
          → Post
              (λ out w. Counted (suc n) w × Gave input out)
              (λ e. Counted (suc n))
              r
              (v.converse input w).1
      go w (ok out) e h = (h, (w, e))
      go w (err x) e h = h

  -- The verdict of an answer to this request, after more than `m` calls and at most `n`.
  abbrev pub Verdict : ConverseInput → ℕ → ℕ → ValidationResult → W → Type 0
  Verdict input m n r w =
      ((m < calls w) × (calls w ≤ n))
      × ((out : ConverseOutput D) × Gave input out × (parse_tool_use_result v out ≡ ok r))

  abbrev pub NoVerdict : ℕ → ℕ → Error → W → Type 0
  NoVerdict m n e w =
      (((cause : Error) × (e ≡ validation_unavailable cause)) × (m < calls w) × (calls w ≤ n))
      ⊎ (((cause : Error) × (e ≡ wrap "bedrock converse: retries exhausted" cause)) × (calls w ≡ n))

  NoVerdict-later :
      (m n : ℕ) (e : Error) (w : W)
      → NoVerdict (suc m) (suc m + n) e w
      → NoVerdict m (m + suc n) e w
  NoVerdict-later m n e w (inl (c, l, u)) = inl (c, omega arith, omega arith)
  NoVerdict-later m n e w (inr (c, u)) = inr (c, omega arith)

  -- A turn of the loop after the model's answer, when the turns that are left do what they should.
  parsed-Ends :
      (n m : ℕ) (input : ConverseInput) (r : Result ValidationResult) (out : ConverseOutput D)
      → ((e : Error)
          → Ends
              (Counted (suc m))
              (attempts v n input e)
              (Verdict input (suc m) (suc m + n))
              (NoVerdict (suc m) (suc m + n)))
      → parse_tool_use_result v out ≡ r
      → Ends
          (λ w. Counted (suc m) w × Gave input out)
          (parsed v (attempts v n input) r)
          (Verdict input m (m + suc n))
          (NoVerdict m (m + suc n))
  unfolding parsed
  parsed-Ends n m input (ok a) out rest p =
      Ends-pure a (λ w h. ((omega arith, omega arith), (out, h.1, p)))
  parsed-Ends n m input (err x) out rest p =
      Ends-weaken (λ w h. h.0) (λ a w h. ((omega arith, omega arith), h.1)) (NoVerdict-later m n)
        (rest x)

  attempts-Ends :
      (n m : ℕ) (input : ConverseInput) (e : Error)
      → Ends (Counted m) (attempts v n input e) (Verdict input m (m + n)) (NoVerdict m (m + n))
  unfolding attempts
  attempts-Ends zero m input e = Ends-raise _ (λ w p. inr ((e, refl), omega arith))
  attempts-Ends (suc n) m input e =
      Ends-or_return _ _ _ _ _ (converse-Ends _ m)
        (λ cause. Ends-raise _ (λ w p. inl ((cause, refl), omega arith, omega arith)))
        (λ out.
          parsed-Ends n m input (parse_tool_use_result v out) out (attempts-Ends n (suc m) input)
            refl)

  -- Validate calls the model at least once and at most three times where it returns a verdict,
  -- which is what was parsed from an answer that the model gave to the request for this
  -- command. It fails as unavailable, also after one to three calls, or because no answer of
  -- exactly three calls could be parsed. Each call is counted.
  pub validate-Ends :
      (m : ℕ) (command : String)
      → Ends
          (Counted m)
          (validate v command)
          (Verdict (converse_input v command) m (m + 3))
          (NoVerdict m (m + 3))
  unfolding validate
  validate-Ends m command = attempts-Ends 3 m _ _
