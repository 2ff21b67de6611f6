-- ===== src/Runner/Router.antt =====
-- runner/handler.go: newHandler and handleHealth, and how an event and an audit entry are written.
pub mod Accounts
use cli_demo.Prelude.{
  ℕ, String, ◌<>◌, ◌&&◌, List, [], ◌∷◌, Option, none, some, ◌==◌, string_eq, if◌then◌else◌,
}
use cli_demo.Prelude.Int.{ℤ}
use cli_demo.GoError.{Error, error_text}
use cli_demo.Effect.{Eff, pure, ◌>>=◌}
use cli_demo.Runner.Session.{SessionManager, Managed}
use cli_demo.Runner.LlmValidator.{ValidationResult}
use cli_demo.Runner.Handler.{
  Request, SseEvent, Answer, AuditEntry, HandlerDeps, handle_create_session, handle_delete_session,
  handle_execute,
}

-- c.String, or the answer of a handler.
pub data Response : Type 0 where
  text : ℕ → String → Response
  answer : Answer → Response

pub record Route (W S : Type 0) : Type 0 where
  pub method : String
  pub path : String
  pub handler : Request → Eff (Managed W S) Response

-- The method and the path of a request, and what a handler sees of it.
pub record Incoming : Type 0 where
  pub method : String
  pub path : String
  pub request : Request

module _ {W S : Type 0} where
  unfoldable pub handle_health : Request → Eff (Managed W S) Response
  handle_health req = pure (text 200 "ok\n")

  unfoldable pub answered : Eff (Managed W S) Answer → Eff (Managed W S) Response
  answered m = do a ← m; pure (answer a)

  -- `none` is a nil validator.
  abbrev pub new_handler :
      SessionManager W S
      → HandlerDeps W S
      → Option (String → Eff W ValidationResult)
      → List (Route W S)
  new_handler m d v =
      record { method = "GET"; path = "/health"; handler = handle_health }
      ∷ record {
        method = "POST";
        path = "/api/session";
        handler = λ req. answered (handle_create_session m);
      }
      ∷ record {
        method = "DELETE";
        path = "/api/session";
        handler = λ req. answered (handle_delete_session m req);
      }
      ∷ record {
        method = "POST";
        path = "/api/execute";
        handler = λ req. answered (handle_execute d m v req);
      }
      ∷ []

  -- gin finds the route of a path without parameters by equality; a request without a route is gin's.
  unfoldable pub serve : List (Route W S) → Incoming → Eff (Managed W S) (Option Response)
  serve [] req = pure none
  serve (route ∷ routes) req =
      let rest = serve routes req in
      if (route.method == req.method) && (route.path == req.path)
      then (do r ← route.handler req.request; pure (some r))
      else rest

  unfoldable pub serve_all : List (Route W S) → List Incoming → Managed W S → Managed W S
  serve_all routes [] w = w
  serve_all routes (req ∷ reqs) w = serve_all routes reqs (serve routes req w).1

-- writeSSE, with json.Marshal.
unfoldable pub write_sse : (SseEvent → String) → SseEvent → String
write_sse marshal event = "data: " <> marshal event <> "\n\n"

-- The body of a stream.
unfoldable pub event_stream : (SseEvent → String) → List SseEvent → String
event_stream marshal [] = ""
event_stream marshal (event ∷ events) = write_sse marshal event <> event_stream marshal events

abbrev exit_code_suffix : (ℤ → String) → Option ℤ → String
exit_code_suffix decimal none = ""
exit_code_suffix decimal (some code) = " exitCode=" <> decimal code

abbrev error_suffix : Option Error → String
error_suffix none = ""
error_suffix (some e) = " error=" <> error_text e

-- auditLog, with fmt's %q and %d.
unfoldable pub audit_line : (String → String) → (ℤ → String) → AuditEntry → String
audit_line quote decimal e =
    "[AUDIT] session="
    <> e.session
    <> " remote="
    <> e.remote
    <> " class="
    <> e.class
    <> " command="
    <> quote e.command
    <> exit_code_suffix decimal e.exit_code
    <> error_suffix e.error
