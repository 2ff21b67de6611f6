-- ===== src/Tests/Handlers.antt =====
-- Instances of the theorems on the runner's handlers, its validator and its registration.
use mathlib.Core.Path.{subst}
use cli_demo.Prelude.{
  ◌<>◌, ℕ, zero, suc, ◌+◌, ◌≤◌, ◌<◌, String, ◌≡◌, refl, ◌⊎◌, inl, inr, true, false, List, [], ◌∷◌,
  ◌++◌, none, some, arith, nat_eq, string_eq,
}
use cli_demo.Prelude.Int.{pos}
use cli_demo.Prelude.Dict.{Dict}
use cli_demo.Effect.{ok, Eff, pure}
use cli_demo.Effect.Ends.{Ends}
use cli_demo.Runner.Session.{SessionManager}
use cli_demo.Runner.LlmValidator.{
  BedrockValidator, ValidationResult, ConverseOutput, nil_output, message, tool_use, validate,
  tool_name, converse_input,
}
use cli_demo.Runner.LlmValidator.Attempts.{Counted, Verdict, NoVerdict, validate-Ends}
use cli_demo.Runner.Handler.{Request, HandlerDeps, handle_execute}
use cli_demo.Runner.Handler.Decision.{IsTraced, Called, Decided, handle_execute-Decided}
use cli_demo.Runner.Main.{default_model_id}
use cli_demo.Runner.Register.{RegisterDeps, register}
use cli_demo.Runner.Register.Retries.{IsAccepting, register-Registered}

-- A model whose first answer is nil, and that judges then; the world counts the calls.
abbrev answer_at : ℕ → ConverseOutput String
answer_at zero = nil_output
answer_at (suc n) = message (tool_use (some tool_name) "{}" ∷ [])

abbrev model : BedrockValidator ℕ String
model = record {
  converse = λ input n. (ok (answer_at n), suc n);
  model_id = default_model_id;
  marshal_document = λ d. ok d;
  unmarshal = λ raw. ok (record { safe = false; reason = "unsafe" });
}

validate-Ends_example :
    Ends
      (Counted model (λ n. n) (λ input n. refl) 0)
      (validate model "rm -rf /")
      (Verdict model (λ n. n) (λ input n. refl) (converse_input model "rm -rf /") 0 (0 + 3))
      (NoVerdict model (λ n. n) (λ input n. refl) 0 (0 + 3))
validate-Ends_example = validate-Ends model (λ n. n) (λ input n. refl) 0 "rm -rf /"

-- The world is the list of the calls of ExecuteStream.
abbrev manager : SessionManager (List (String × String)) String
manager = record {
  gen_id = pure "b";
  quote = λ s. "\"" <> s <> "\"";
  new_shell = pure "sh2";
  close = λ s. pure tt;
}

abbrev deps : HandlerDeps (List (String × String)) String
deps = record {
  execute = λ shell command w. (
    record { lines = []; exit_code = pos 0; stderr = ""; error = none },
    w ++ (shell, command) ∷ [],
  );
  audit = λ e w. w;
}

abbrev validator : String → Eff (List (String × String)) ValidationResult
validator command w = (ok (record { safe = true; reason = "" }), w)

deps-IsTraced : IsTraced deps (some validator) (λ w. w)
deps-IsTraced = record {
  audits = λ e w. refl;
  executes = λ s command w. refl;
  judges = λ v e command w.
      let same : validator ≡ v = cc e in
      subst (λ (f : String → Eff (List (String × String)) ValidationResult). (f command w).1 ≡ w)
        same refl;
}

abbrev request : Request
request = record {
  cookie = ok "a";
  viewer_address = "";
  gin_address = "10.0.0.1";
  command = ok "make";
}

abbrev held : Dict String String
held = ("a", "sh1") ∷ []

handle_execute-Decided_example :
    Ends
      (Called manager deps (some validator) (λ w. w) deps-IsTraced request held [] [])
      (handle_execute deps manager (some validator) request)
      (Decided manager deps (some validator) (λ w. w) deps-IsTraced request held [])
      (λ e w. ⊥)
handle_execute-Decided_example =
    handle_execute-Decided manager deps (some validator) (λ w. w) deps-IsTraced request held []

-- The world is how many attempts the broker refuses still.
abbrev attempt_at : ℕ → ℕ
attempt_at zero = 201
attempt_at (suc n) = 503

abbrev waited : ℕ → ℕ
waited zero = zero
waited (suc n) = n

abbrev registering : RegisterDeps ℕ
registering = record {
  broker_url = "http://broker:8080";
  identity = record { runner_id = "0af1"; private_url = "http://10.0.0.7:3000" };
  http_post = λ url content_type body n. (ok (attempt_at n), n);
  wait = λ n. (ok tt, waited n);
  json_marshal = λ identity. "{}";
}

registering-IsAccepting : IsAccepting registering (λ n. n)
registering-IsAccepting = record {
  posts = λ url content_type body n. record { at = λ w p. (p, answered w) };
  waits = λ n. record { at = λ w p. less w p };
}
  where
    answered : (w : ℕ) → (attempt_at w ≡ 201) ⊎ (0 < w)
    answered zero = inl refl
    answered (suc w) = inr (omega arith)

    less : {n : ℕ} (w : ℕ) → (w ≤ suc n) × (0 < w) → waited w ≤ n
    less zero p = omega (arith, p)
    less (suc w) p = omega (arith, p)

register-Registered_example :
    Ends (λ w. w ≤ 4) (register registering 5) (λ o w. o ≡ some tt) (λ e w. ⊥)
register-Registered_example =
    register-Registered registering (λ n. n) registering-IsAccepting 5 4 (omega arith)
