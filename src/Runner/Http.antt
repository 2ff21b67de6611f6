-- ===== src/Runner/Http.antt =====
-- runner/register.go and runner/identity.go: defaultHTTPPost and defaultHTTPGet, over net/http.
use cli_demo.Prelude.{ℕ, String, ◌<>◌, not, ◌==◌, nat_eq, if◌then◌else◌}
use cli_demo.Prelude.Bytes.{decimal_text}
use cli_demo.GoError.{plain}
use cli_demo.Effect.{Result, Eff, pure, raise, lift, ◌>>=◌}

-- http.NewRequestWithContext by method, address and body; the header; http.DefaultClient.Do with the
-- status and the body of the answer; and io.ReadAll.
pub record HttpClient (W R B : Type 0) : Type 0 where
  pub new_request : String → String → String → Result R
  pub set_header : String → String → R → R
  pub do_request : R → Eff W (ℕ × B)
  pub read_all : B → Eff W String

module _ {W R B : Type 0} (client : HttpClient W R B) where
  open client use {new_request, set_header, do_request, read_all}

  unfoldable pub default_http_post : String → String → String → Eff W (ℕ × B)
  default_http_post url content_type body = do
    req ← lift (new_request "POST" url body)
    do_request (set_header "Content-Type" content_type req)

  unfoldable pub default_http_get : String → Eff W String
  default_http_get url = do
    req ← lift (new_request "GET" url "")
    resp ← do_request req
    (if not (resp.0 == 200)
        then raise (plain ("metadata endpoint returned " <> decimal_text resp.0))
        else read_all resp.1)

  -- What register looks at.
  unfoldable pub post_status : String → String → String → Eff W ℕ
  post_status url content_type body = do resp ← default_http_post url content_type body; pure resp.0
