-- ===== src/Broker/Handler.antt =====
-- broker/handler: the broker's HTTP handlers over its service, and the middleware that numbers requests.
pub mod Routes
pub mod Frames
use cli_demo.Prelude.{
  ℕ, String, ◌<>◌, Bool, true, false, List, [], ◌∷◌, ◌++◌, Option, none, some, ◌==◌, string_eq, not,
  ◌&&◌, if◌then◌else◌,
}
use cli_demo.Prelude.Bytes.{Bytes}
use cli_demo.GoError.{Error, plain, error_text, is_error, runner_not_found, no_idle_runner}
use cli_demo.Effect.{Result, ok, err, Eff, pure, lift, ◌>>=◌, wrapping, or_return}
use cli_demo.Broker.Service.{
  BrokerService, ResolveResult, resolve_session, close_session, register_runner, deregister_runner,
}

-- service.Service; `none` where the search for a runner did not end within its fuel.
pub record Service (W : Type 0) : Type 0 where
  pub close : String → Eff W (Unit {0})
  pub resolve : String → Eff W (Option ResolveResult)
  pub register : String → String → Eff W (Unit {0})
  pub deregister : String → Eff W (Unit {0})

-- BrokerService as a Service.
abbrev pub service_of : {W : Type 0} → BrokerService W → ℕ → Service W
service_of s fuel = record {
  close = close_session s;
  resolve = resolve_session s fuel;
  register = register_runner s;
  deregister = deregister_runner s;
}

pub record ErrorResponse : Type 0 where
  pub code : String
  pub message : String
  pub request_id : String

-- The status, the headers, the cookie runner_id where it is set, and the body.
pub record Answer : Type 0 where
  pub status : ℕ
  pub headers : List (String × String)
  pub cookie : Option String
  pub body : Option ErrorResponse

abbrev pub bare : ℕ → Answer
bare n = record { status = n; headers = []; cookie = none; body = none }

-- registerRequest, with both fields there.
pub record RegisterRequest : Type 0 where
  pub runner_id : String
  pub private_url : String

-- What net/url finds in an address.
pub record Url : Type 0 where
  pub scheme : String
  pub host : String

abbrev check_scheme : Url → Result (Unit {0})
check_scheme u =
    if not (u.scheme == "http") && not (u.scheme == "https")
    then err (plain "scheme must be http or https")
    else if u.host == ""
    then err (plain "host is required")
    else ok tt

check_parsed : Result Url → Result (Unit {0})
check_parsed (err e) = err e
check_parsed (ok u) = check_scheme u

unfoldable pub validate_runner_url : (String → Result Url) → String → Result (Unit {0})
unfolding check_parsed
validate_runner_url parse raw = check_parsed (parse raw)

abbrev reassigned_header : Bool → List (String × String)
reassigned_header true = ("X-Session-Reassigned", "true") ∷ []
reassigned_header false = []

abbrev created_cookie : Bool → String → Option String
created_cookie true id = some id
created_cookie false id = none

abbrev cookie_value : Result String → String
cookie_value (ok id) = id
cookie_value (err e) = ""

unfoldable pub resolved_answer : Option ResolveResult → Option Answer
resolved_answer none = none
resolved_answer (some r) = some (record {
  status = 200;
  headers = reassigned_header r.reassigned ++ ("X-Runner-Url", r.runner_url) ∷ [];
  cookie = created_cookie r.created r.session_id;
  body = none;
})

module _ {W : Type 0} where
  -- The id of the request, empty where the middleware set none.
  unfoldable pub write_error : String → ℕ → String → String → Eff W Answer
  write_error rid n code message = pure (record {
    status = n;
    headers = [];
    cookie = none;
    body = some (record { code = code; message = message; request_id = rid });
  })

  -- RequestIDMiddleware around the rest of the handlers.
  unfoldable pub with_request_id : Eff W String → (String → Eff W Answer) → Eff W Answer
  with_request_id id_fn next =
      or_return id_fn (λ e. pure (bare 500))
        (λ id. do a ← next id; pure (record a { headers = ("X-Request-Id", id) ∷ a.headers }))

  -- defaultIDFnWithReader, with the reader and the encoding.
  unfoldable pub default_id_fn : (ℕ → Eff W Bytes) → (Bytes → String) → Eff W String
  default_id_fn read_full encode = do
    b ← wrapping "generate request id" (read_full 16)
    pure (encode b)

module _ {W : Type 0} (svc : Service W) where
  unfoldable pub delete_session : String → String → Eff W Answer
  delete_session rid id =
      or_return (svc.close id)
        (λ e.
          if is_error runner_not_found e
          then write_error rid 404 "SESSION_NOT_FOUND" "session not found"
          else write_error rid 500 "INTERNAL_ERROR" "failed to close session")
        (λ _. pure (bare 204))

  -- By the cookie runner_id, or the error that there is none.
  unfoldable pub get_resolve : String → Result String → Eff W (Option Answer)
  get_resolve rid cookie =
      or_return (svc.resolve (cookie_value cookie))
        (λ e.
          if is_error no_idle_runner e
          then write_error rid 503 "NO_IDLE_RUNNER" "no idle runner available"
            >>= (λ a. pure (some a))
          else write_error rid 500 "INTERNAL_ERROR" "failed to resolve session"
            >>= (λ a. pure (some a)))
        (λ r. pure (resolved_answer r))

  unfoldable pub post_register :
      (String → Result Url) → String → Result RegisterRequest → Eff W Answer
  post_register parse rid body =
      or_return (lift body) (λ e. write_error rid 400 "INVALID_REQUEST" "invalid request body")
        (λ req.
          or_return (lift (validate_runner_url parse req.private_url))
            (λ e. write_error rid 400 "INVALID_REQUEST" ("invalid privateUrl: " <> error_text e))
            (λ _.
              or_return (svc.register req.runner_id req.private_url)
                (λ e. write_error rid 500 "INTERNAL_ERROR" "failed to register runner")
                (λ _. pure (bare 201))))

  unfoldable pub delete_runner : String → String → Eff W Answer
  delete_runner rid id =
      or_return (svc.deregister id)
        (λ e. write_error rid 500 "INTERNAL_ERROR" "failed to deregister runner")
        (λ _. pure (bare 204))
