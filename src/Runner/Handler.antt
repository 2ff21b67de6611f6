-- ===== src/Runner/Handler.antt =====
-- runner/handler.go: the HTTP handlers over the session manager. A request is what gin gives of it;
-- an answer is what is written.
pub mod Decision
use cli_demo.Prelude.{
  ℕ, String, ◌<>◌, Bool, true, false, not, List, [], ◌∷◌, ◌++◌, map, Option, none, some, ◌==◌,
  string_eq, if◌then◌else◌,
}
use cli_demo.Prelude.Int.{ℤ}
use cli_demo.GoError.{
  Error, wrap, plain, error_text, is_error, session_not_found, is_validation_unavailable,
}
use cli_demo.Effect.{Result, ok, err, Eff, pure, lift, attempt, ◌>>=◌, ◌>>◌, or_return}
use cli_demo.Runner.Validate.{classify_command}
use cli_demo.Runner.Session.{SessionManager, Managed, outside, create, get, delete}
use cli_demo.Runner.LlmValidator.{ValidationResult}

abbrev pub missing_session_cookie : String
missing_session_cookie = "missing session_id cookie"

-- The cookie session_id, or the error that there is none; the header CloudFront-Viewer-Address, empty
-- where there is none, and the address that gin finds; and the command that ShouldBindJSON finds in
-- the body.
pub record Request : Type 0 where
  pub cookie : Result String
  pub viewer_address : String
  pub gin_address : String
  pub command : Result String

pub record SseEvent : Type 0 where
  pub type_name : String
  pub text : String
  pub exit_code : Option ℤ

-- c.JSON with an errorResponse; 204, with the cookie where it is set; 200 and a stream of events.
pub data Answer : Type 0 where
  json : ℕ → String → Answer
  no_content : Option String → Answer
  events : List SseEvent → Answer

pub record AuditEntry : Type 0 where
  pub session : String
  pub remote : String
  pub class : String
  pub command : String
  pub exit_code : Option ℤ
  pub error : Option Error

-- What ExecuteStream sends and returns.
pub record Executed : Type 0 where
  pub lines : List String
  pub exit_code : ℤ
  pub stderr : String
  pub error : Option Error

pub record HandlerDeps (W S : Type 0) : Type 0 where
  pub execute : S → String → W → Executed × W
  pub audit : AuditEntry → W → W

abbrev stdout_event : String → SseEvent
stdout_event line = record { type_name = "stdout"; text = line; exit_code = none }

abbrev stderr_events : String → List SseEvent
stderr_events text =
    if text == "" then [] else record { type_name = "stderr"; text = text; exit_code = none } ∷ []

abbrev complete_event : ℤ → SseEvent
complete_event code = record { type_name = "complete"; text = ""; exit_code = some code }

unfoldable pub events_of : Executed → List SseEvent
events_of r = map stdout_event r.lines ++ stderr_events r.stderr ++ complete_event r.exit_code ∷ []

unfoldable pub client_ip : Request → String
client_ip req = if req.viewer_address == "" then req.gin_address else req.viewer_address

module _ {W S : Type 0} where
  unfoldable pub refuse : ℕ → String → Eff (Managed W S) Answer
  refuse n text = pure (json n text)

  unfoldable pub with_session_id :
      Result String → (String → Eff (Managed W S) Answer) → Eff (Managed W S) Answer
  with_session_id (err e) k = refuse 400 missing_session_cookie
  with_session_id (ok id) k = if id == "" then refuse 400 missing_session_cookie else k id

module _ {W S : Type 0} (m : SessionManager W S) where
  unfoldable pub handle_create_session : Eff (Managed W S) Answer
  handle_create_session =
      or_return (create m) (λ e. refuse 500 (error_text e)) (λ r. pure (no_content (some r.0)))

  unfoldable pub handle_delete_session : Request → Eff (Managed W S) Answer
  handle_delete_session req = with_session_id req.cookie (λ id.
      or_return (delete m id)
        (λ e.
          if is_error session_not_found e
          then refuse 404 (error_text e)
          else refuse 500 (error_text e))
        (λ _. pure (no_content none)))

module _ {W S : Type 0} (d : HandlerDeps W S) where
  unfoldable pub audited : AuditEntry → Eff (Managed W S) (Unit {0})
  audited e = outside (λ w. (ok tt, d.audit e w))

  -- The command runs, and what it gives is written.
  unfoldable pub stream : String → Request → String → String → S → Eff (Managed W S) Answer
  stream id req class command shell = do
    r ← outside (λ w. let x = d.execute shell command w in (ok x.0, x.1))
    audited (record {
      session = id;
      remote = client_ip req;
      class = class;
      command = command;
      exit_code = some r.exit_code;
      error = r.error;
    })
    pure (events (events_of r))

  -- An entry before the command runs, or instead of it.
  unfoldable pub noted :
      String → Request → String → String → Option Error → Eff (Managed W S) (Unit {0})
  noted id req class command e = audited (record {
    session = id;
    remote = client_ip req;
    class = class;
    command = command;
    exit_code = none;
    error = e;
  })

  -- What is done with the verdict of the validator.
  unfoldable pub judged :
      String → Request → String → String → S → Result ValidationResult → Eff (Managed W S) Answer
  judged id req class command shell (ok result) =
      if not result.safe
      then noted id req "rejected" command (some (plain ("reason: " <> result.reason)))
        >> refuse 403 ("command not allowed: " <> result.reason)
      else stream id req class command shell
  judged id req class command shell (err e) =
      if is_validation_unavailable e
      then noted id req "validation-skipped" command (some e) >> stream id req class command shell
      else noted id req class command (some e) >> refuse 403 "command not allowed"

  -- `none` is a nil validator.
  unfoldable pub validated :
      Option (String → Eff W ValidationResult)
      → String
      → Request
      → String
      → String
      → S
      → Eff (Managed W S) Answer
  validated none id req class command shell = refuse 403 "command not allowed"
  validated (some validate) id req class command shell =
      attempt (outside (validate command)) >>= judged id req class command shell

  unfoldable pub decide :
      Option (String → Eff W ValidationResult)
      → String
      → Request
      → String
      → S
      → Eff (Managed W S) Answer
  decide v id req command shell =
      let class = classify_command command in
      noted id req class command none
      >> (if class == "validated"
          then validated v id req class command shell
          else stream id req class command shell)

  unfoldable pub handle_execute :
      SessionManager W S
      → Option (String → Eff W ValidationResult)
      → Request
      → Eff (Managed W S) Answer
  handle_execute m v req = with_session_id req.cookie (λ id.
      or_return (get m id) (λ e. refuse 404 (error_text e))
        (λ shell.
          or_return (lift req.command) (λ e. refuse 400 ("invalid request: " <> error_text e))
            (λ command. decide v id req command shell)))
