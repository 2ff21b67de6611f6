-- ===== src/Broker/HealthCheck.antt =====
-- broker/healthcheck/checker.go: one request to a runner's address.
use cli_demo.Prelude.{ℕ, String, ◌<>◌, ◌==◌, nat_eq, if◌then◌else◌}
use cli_demo.Prelude.Bytes.{decimal_text}
use cli_demo.GoError.{plain}
use cli_demo.Effect.{Result, Eff, pure, raise, lift, ◌>>=◌, wrapping}
use cli_demo.Broker.Service.{Checker}

-- net/http: a GET request of type `R` for an address, and the status of the answer to it.
pub record HttpClient (W R : Type 0) : Type 0 where
  pub new_request : String → Result R
  pub do_request : R → Eff W ℕ

module _ {W R : Type 0} (client : HttpClient W R) where
  open client use {new_request, do_request}

  unfoldable pub check : String → Eff W (Unit {0})
  check private_url = do
    req ← wrapping "healthcheck: create request" (lift (new_request (private_url <> "/health")))
    status ← wrapping "healthcheck: request failed" (do_request req)
    (if status == 200
        then pure tt
        else raise (plain ("healthcheck: unexpected status " <> decimal_text status)))

  abbrev pub http_checker : Checker W
  http_checker = record { check = check }
