-- ===== src/Presenter/Login.antt =====
-- presenter/cmd/login/main.go: a session for whoever knows the password.
pub mod Passwords
use cli_demo.Prelude.{
  ℕ, String, ◌<>◌, Bool, true, false, not, List, [], ◌∷◌, Option, none, some, ◌==◌, string_eq,
  if◌then◌else◌,
}
use cli_demo.Prelude.Bytes.{Bytes}
use cli_demo.GoError.{Error, is_error, mismatched_hash_and_password}
use cli_demo.Effect.{Result, ok, err, Eff, pure, lift, ◌>>=◌, wrapping, or_return}

-- events.APIGatewayV2HTTPRequest
pub record Request : Type 0 where
  pub method : String
  pub cookies : List String
  pub body : String

-- events.APIGatewayV2HTTPResponse; the handler's error is nil always.
pub record Response : Type 0 where
  pub status_code : ℕ
  pub headers : List (String × String)
  pub body : String
  pub cookies : List String

-- The package's variables, the cookie of a name in a header as net/http parses it, encoding/json,
-- and the two functions that generateToken calls.
pub record Login (W : Type 0) : Type 0 where
  pub get_secret_value : Eff W (Option String)
  pub create : String → Eff W (Unit {0})
  pub is_valid : String → Eff W Bool
  pub compare_hash : String → String → Result (Unit {0})
  pub request_cookie : String → String → Result String
  pub json_unmarshal : String → Result String
  pub json_marshal : List (String × String) → Result String
  pub read_full : ℕ → Eff W Bytes
  pub encode_to_string : Bytes → String

abbrev pub unauthorized : String
unauthorized = "{\"error\":\"unauthorized\"}"

abbrev pub internal_server_error : String
internal_server_error = "{\"error\":\"internal server error\"}"

-- The headers of the answers to GET.
abbrev pub get_headers : List (String × String)
get_headers =
    ("Content-Type", "application/json") ∷ ("Cache-Control", "no-store") ∷ ("Vary", "Cookie") ∷ []

abbrev pub slide_auth : String → String
slide_auth token = "slide_auth=" <> token <> "; HttpOnly; Secure; SameSite=Strict; Path=/"

module _ {W : Type 0} where
  -- A response with no cookies.
  unfoldable pub respond : ℕ → List (String × String) → String → Eff W Response
  respond n headers body =
      pure (record { status_code = n; headers = headers; body = body; cookies = [] })

module _ {W : Type 0} (l : Login W) where
  open l use {
    get_secret_value, create, is_valid, compare_hash, request_cookie, json_unmarshal, json_marshal,
    read_full, encode_to_string,
  }

  unfoldable pub generate_token : Eff W String
  generate_token = do b ← wrapping "generate token" (read_full 32); pure (encode_to_string b)

  cookie_or_empty : Result String → String
  cookie_or_empty (ok value) = value
  cookie_or_empty (err e) = ""

  unfoldable pub parse_cookie_value : String → String → String
  unfolding cookie_or_empty
  parse_cookie_value header name = cookie_or_empty (request_cookie header name)

  -- The loop of requestCookieValue.
  unfoldable pub request_cookie_value : List String → String → String
  request_cookie_value [] name = ""
  request_cookie_value (raw ∷ cookies) name =
      let value = parse_cookie_value raw name in
      let rest = request_cookie_value cookies name in if not (value == "") then value else rest

  unfoldable pub handle_get : Request → Eff W Response
  handle_get req =
      let token = request_cookie_value req.cookies "slide_auth" in
      if token == ""
      then respond 401 get_headers unauthorized
      else or_return (is_valid token) (λ e. respond 500 get_headers internal_server_error)
          (λ valid.
            if not valid
            then respond 401 get_headers unauthorized
            else or_return (lift (json_marshal (("status", "authenticated") ∷ [])))
                (λ e. respond 500 get_headers internal_server_error)
                (λ body. respond 200 get_headers body))

  -- From the hash on: the comparison, the token and the session.
  with_hash : String → String → Eff W Response
  with_hash password hash =
      or_return (lift (compare_hash hash password))
        (λ e.
          if is_error mismatched_hash_and_password e
          then respond 401 [] unauthorized
          else respond 500 [] internal_server_error)
        (λ _.
          or_return generate_token (λ e. respond 500 [] internal_server_error)
            (λ token.
              or_return (create token) (λ e. respond 500 [] internal_server_error)
                (λ _. pure (record {
                  status_code = 302;
                  headers = ("Location", "/") ∷ [];
                  body = "";
                  cookies = slide_auth token ∷ [];
                }))))

  -- `none` is a nil SecretString.
  with_secret : String → Option String → Eff W Response
  unfolding with_hash
  with_secret password none = respond 500 [] internal_server_error
  with_secret password (some hash) =
      if hash == "" then respond 500 [] internal_server_error else with_hash password hash

  unfoldable pub handle_post : Request → Eff W Response
  unfolding with_secret with_hash
  handle_post req =
      or_return (lift (json_unmarshal req.body))
        (λ e. respond 400 [] "{\"error\":\"invalid request body\"}")
        (λ password.
          or_return get_secret_value (λ e. respond 500 [] internal_server_error)
            (with_secret password))

  unfoldable pub handle : Request → Eff W Response
  handle req =
      if req.method == "GET"
      then handle_get req
      else if req.method == "POST"
      then handle_post req
      else respond 405 [] "{\"error\":\"method not allowed\"}"
