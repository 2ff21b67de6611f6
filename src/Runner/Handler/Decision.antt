-- ===== src/Runner/Handler/Decision.antt =====
-- runner/handler.go: which commands handleExecute runs.
use cli_demo.Prelude.{
  ℕ, String, ◌≡◌, refl, sym, ap, ◌∙◌, Bool, true, false, not, ◌⊎◌, inl, inr, List, [], ◌∷◌, ◌++◌,
  Option, none, some, ◌==◌, string_eq,
}
use cli_demo.Prelude.Dict.{Dict, lookup}
use cli_demo.GoError.{Error, error_text, is_validation_unavailable}
use cli_demo.Effect.{Result, ok, err, Eff, pure, attempt, ◌>>=◌, ◌>>◌, or_return}
use cli_demo.Effect.Ends.{
  Ends, Ends-or_return, Ends-or_return_lift, Ends-if, Ends-pure, Ends-weaken,
}
use cli_demo.Runner.Validate.{classify_command}
use cli_demo.Runner.Session.{SessionManager, Managed, outside, get}
use cli_demo.Runner.Session.Lifecycle.{get-Ends}
use cli_demo.Runner.LlmValidator.{ValidationResult}
use cli_demo.Runner.Handler.{
  Request, Answer, json, events, no_content, AuditEntry, HandlerDeps, refuse, with_session_id,
  missing_session_cookie, audited, stream, noted, judged, validated, decide, handle_execute,
}

not-false : (b : Bool) → not b ≡ false → b ≡ true
not-false true h = refl
not-false false h = sym h

-- The verdicts after which a command runs.
abbrev pub permits : Result ValidationResult → Bool
permits (ok result) = result.safe
permits (err e) = is_validation_unavailable e

abbrev pub IsRefusal : Answer → Type 0
IsRefusal (json n text) = (n ≡ 400) ⊎ ((n ≡ 403) ⊎ (n ≡ 404))
IsRefusal (no_content id) = ⊥
IsRefusal (events es) = ⊥

abbrev pub IsStream : Answer → Type 0
IsStream (json n text) = ⊥
IsStream (no_content id) = ⊥
IsStream (events es) = Unit

-- The calls of ExecuteStream, each a shell and a command: auditing and the validator make none.
pub record IsTraced {W S : Type 0} (d : HandlerDeps W S)
    (v : Option (String → Eff W ValidationResult)) (calls : W → List (S × String)) : Type 0 where
  pub audits : (e : AuditEntry) (w : W) → calls (d.audit e w) ≡ calls w
  pub executes :
      (s : S) (command : String) (w : W)
      → calls (d.execute s command w).1 ≡ calls w ++ (s, command) ∷ []
  pub judges :
      (validate : String → Eff W ValidationResult)
      → v ≡ some validate
      → (command : String) (w : W) → calls (validate command w).1 ≡ calls w

module _ {W S : Type 0} (m : SessionManager W S) (d : HandlerDeps W S)
    (v : Option (String → Eff W ValidationResult)) (calls : W → List (S × String))
    (law : IsTraced d v calls) (req : Request) (t : Dict String S) (cs : List (S × String)) where
  -- Not validated, or a verdict of the validator lets it run.
  abbrev pub IsPermitted : String → Type 0
  IsPermitted command =
      ((classify_command command == "validated") ≡ false)
      ⊎ ((validate : String → Eff W ValidationResult) × (v ≡ some validate)
          × ((w : W) × (permits (validate command w).0 ≡ true)))

  abbrev pub Called : List (S × String) → Managed W S → Type 0
  Called xs w = (w.0 ≡ t) × (calls w.1 ≡ xs)

  abbrev pub Decided : Answer → Managed W S → Type 0
  Decided a w =
      (IsRefusal a × Called cs w)
      ⊎ ((command : String) × (shell : S) × (IsStream a × Called (cs ++ (shell, command) ∷ []) w)
          × (req.command ≡ ok command)
          × IsPermitted command
          × ((id : String) × (req.cookie ≡ ok id) × (lookup id t ≡ some shell)))

  Decides : Eff (Managed W S) Answer → Type 0
  Decides f = Ends (Called cs) f Decided (λ e w. ⊥)

  refuse-Decides : (n : ℕ) (text : String) → IsRefusal (json n text) → Decides (refuse n text)
  unfolding Decides refuse
  refuse-Decides n text h = Ends-pure _ (λ w p. inl (h, p))

  module _ (id command : String) (shell : S) (cookie : req.cookie ≡ ok id)
      (held : lookup id t ≡ some shell) (bound : req.command ≡ ok command) where
    stream-Decides :
        (class : String) → IsPermitted command → Decides (stream d id req class command shell)
    unfolding Decides stream audited outside pure ◌>>=◌
    stream-Decides class permitted = record {
      at = λ w p. inr (
        command,
        shell,
        (
          tt,
          (
            p.0,
            law.audits _ _
                ∙ law.executes shell command w.1
                ∙ ap (λ xs. xs ++ (shell, command) ∷ []) p.1,
          ),
        ),
        bound,
        permitted,
        (id, cookie, held),
      );
    }

    noted-Decides :
        (class : String) (e : Option Error) (f : Eff (Managed W S) Answer)
        → Decides f
        → Decides (noted d id req class command e >> f)
    unfolding Decides noted audited outside ◌>>=◌
    noted-Decides class e f h = record { at = λ w p. h.at _ (p.0, law.audits _ _ ∙ p.1) }

    judged-Decides :
        (class : String) (r : Result ValidationResult)
        → (permits r ≡ true → IsPermitted command)
        → Decides (judged d id req class command shell r)
    unfolding Decides judged
    judged-Decides class (ok result) h =
        Ends-if _ _ _ (λ unsafe. noted-Decides _ _ _ (refuse-Decides 403 _ (inr (inl refl))))
          (λ safe. stream-Decides class (h (not-false _ safe)))
    judged-Decides class (err e) h =
        Ends-if _ _ _ (λ skipped. noted-Decides _ _ _ (stream-Decides class (h skipped)))
          (λ failed. noted-Decides _ _ _ (refuse-Decides 403 _ (inr (inl refl))))

    validated-Decides :
        (class : String) (o : Option (String → Eff W ValidationResult))
        → v ≡ o
        → Decides (validated d o id req class command shell)
    unfolding Decides validated attempt outside ◌>>=◌
    validated-Decides class none e = refuse-Decides 403 _ (inr (inl refl))
    validated-Decides class (some validate) e = record {
      at = λ w p.
          (judged-Decides class (validate command w.1).0 (λ h. inr (validate, e, (w.1, h)))).at _
            (p.0, law.judges validate e command w.1 ∙ p.1);
    }

    decide-Decides : Decides (decide d v id req command shell)
    unfolding Decides decide
    decide-Decides =
        noted-Decides _ _ _
          (Ends-if _ _ _ (λ h. validated-Decides _ v refl) (λ h. stream-Decides _ (inl h)))

  get-Decides :
      (id : String) (k : S → Eff (Managed W S) Answer)
      → ((shell : S) → lookup id t ≡ some shell → Decides (k shell))
      → Decides (or_return (get m id) (λ e. refuse 404 (error_text e)) k)
  unfolding Decides
  get-Decides id k h =
      Ends-or_return _ _ _ _ _ (get-Ends m t (λ w. calls w ≡ cs) id)
        (λ e.
          Ends-weaken (λ w p. p.1) (λ a w q. q) (λ e w q. q)
            (refuse-Decides 404 _ (inr (inr refl))))
        (λ shell. record { at = λ w p. (h shell p.0).at w p.1 })

  cookie-Decides :
      (r : Result String) (k : String → Eff (Managed W S) Answer)
      → ((id : String) → r ≡ ok id → Decides (k id))
      → Decides (with_session_id r k)
  unfolding Decides with_session_id
  cookie-Decides (ok id) k h =
      Ends-if (id == "") (refuse 400 missing_session_cookie) (k id)
        (λ empty. refuse-Decides 400 _ (inl refl)) (λ full. h id refl)
  cookie-Decides (err e) k h = refuse-Decides 400 _ (inl refl)

  -- handleExecute either answers 400, 403 or 404 and ExecuteStream was not called, or streams
  -- events and ExecuteStream was called exactly once, with the shell of the cookie's session
  -- and the request's command: then the command was not one to be validated, or the validator
  -- could judge it safe or be unavailable. It never fails, and the sessions stay as they are.
  -- Auditing and the validator do not call it.
  pub handle_execute-Decided : Ends (Called cs) (handle_execute d m v req) Decided (λ e w. ⊥)
  unfolding handle_execute Decides
  handle_execute-Decided = cookie-Decides req.cookie _ (λ id c. get-Decides id _ (λ shell held.
      Ends-or_return_lift req.command _ _ (λ e same. refuse-Decides 400 _ (inl refl))
        (λ command bound. decide-Decides id command shell c held bound)))
