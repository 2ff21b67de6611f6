-- ===== src/Runner/Register.antt =====
-- runner/register.go: a runner enters the broker's pool, and leaves it.
pub mod Retries
use cli_demo.Prelude.{
  ℕ, zero, suc, String, ◌<>◌, not, Option, none, some, ◌==◌, nat_eq, if◌then◌else◌,
}
use cli_demo.Prelude.Bytes.{decimal_text}
use cli_demo.GoError.{plain}
use cli_demo.Effect.{Result, Eff, pure, raise, lift, ◌>>=◌, ◌>>◌, wrapping, or_return}
use cli_demo.Runner.Identity.{Identity}

-- registerDeps: a POST of a body with its content type gives the status of the answer; waiting for the
-- retry interval has the context's error if the context ends before; `json_marshal` makes the body of a
-- registerRequest, which cannot fail.
pub record RegisterDeps (W : Type 0) : Type 0 where
  pub broker_url : String
  pub identity : Identity
  pub http_post : String → String → String → Eff W ℕ
  pub wait : Eff W (Unit {0})
  pub json_marshal : Identity → String

module _ {W : Type 0} (deps : RegisterDeps W) where
  open deps use {broker_url, identity, http_post, wait, json_marshal}

  -- The loop, on fuel; `none` means that the fuel ran out.
  unfoldable pub register : ℕ → Eff W (Option (Unit {0}))
  register zero = pure none
  register (suc fuel) =
      let retry = wait >> register fuel in
      or_return
        (http_post (broker_url <> "/internal/runners/register") "application/json"
          (json_marshal identity))
        (λ e. retry) (λ status. if status == 201 then pure (some tt) else retry)

-- deregisterDeps, with requests of type `R`.
pub record DeregisterDeps (W R : Type 0) : Type 0 where
  pub broker_url : String
  pub runner_id : String
  pub new_request : String → Result R
  pub http_do : R → Eff W ℕ

module _ {W R : Type 0} (deps : DeregisterDeps W R) where
  open deps use {broker_url, runner_id, new_request, http_do}

  unfoldable pub deregister : Eff W (Unit {0})
  deregister = do
    req ←
        wrapping "create deregister request"
          (lift (new_request (broker_url <> "/internal/runners/" <> runner_id)))
    status ← wrapping "deregister request" (http_do req)
    (if not (status == 204)
        then raise (plain ("deregister returned status " <> decimal_text status))
        else pure tt)
