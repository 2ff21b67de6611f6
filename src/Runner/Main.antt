-- ===== src/Runner/Main.antt =====
-- runner/main.go: how a runner starts, serves until a signal, and shuts down. Signals, the network and
-- the other files' functions are fields, as the package's variables are there.
pub mod Shutdown
use cli_demo.Prelude.{
  ℕ, String, ◌<>◌, not, ◌&&◌, Option, none, some, ◌==◌, string_eq, if◌then◌else◌,
}
use cli_demo.GoError.{Error, plain, wrap}
use cli_demo.Effect.{Result, ok, err, Eff, pure, raise, attempt, ◌>>=◌, ◌>>◌, wrapping, or_return}
use cli_demo.Runner.Identity.{Identity}

abbrev pub default_model_id : String
default_model_id = "apac.anthropic.claude-sonnet-4-20250514-v1:0"

-- A validator from the region of the AWS configuration and the id of the model.
unfoldable pub new_bedrock_validator_from_env :
    {W V : Type 0} → Eff W String → (String → String) → (String → String → V) → Eff W V
new_bedrock_validator_from_env load_config getenv new_validator = do
  region ← wrapping "load aws config" load_config
  (if region == ""
      then raise (plain "aws region is required for bedrock runtime")
      else let id = getenv "BEDROCK_MODEL_ID" in
        pure (new_validator region (if id == "" then default_model_id else id)))

-- serverConfig, without what is the same in every run; `none` is a nil validator.
pub record ServerConfig (V : Type 0) : Type 0 where
  pub validator : Option V
  pub broker_url : String
  pub runner_id : String

-- Serving ends without an error when a signal comes first.
pub record Server (W L V : Type 0) : Type 0 where
  pub serve : L → Option V → Eff W (Unit {0})
  pub deregister : String → String → Eff W (Unit {0})
  pub shutdown : Eff W (Unit {0})
  pub close_all : Eff W (Unit {0})

module _ {W L V : Type 0} (s : Server W L V) where
  open s use {serve, deregister, shutdown, close_all}

  first_error : Result (Unit {0}) → Result (Unit {0}) → Eff W (Unit {0})
  first_error (err e) r = raise e
  first_error (ok u) (err e) = raise e
  first_error (ok u) (ok v) = pure tt

  leave : ServerConfig V → Eff W (Result (Unit {0}))
  leave cfg =
      if not (cfg.broker_url == "") && not (cfg.runner_id == "")
      then attempt (deregister cfg.broker_url cfg.runner_id)
      else pure (ok tt)

  unfoldable pub run : L → ServerConfig V → Eff W (Unit {0})
  unfolding first_error leave
  run ln cfg =
      or_return (serve ln cfg.validator) (λ e. raise (wrap "serve" e))
        (λ _. do
          left ← leave cfg
          shut ← attempt shutdown
          closed ← attempt close_all
          first_error shut closed)

pub record Starting (W L V : Type 0) : Type 0 where
  pub listen : String → Eff W L
  pub close : L → Eff W (Unit {0})
  pub port_of : L → String
  pub resolve_identity : String → Eff W Identity
  pub getenv : String → String
  pub new_validator : Eff W V
  pub register : String → Identity → Eff W (Unit {0})
  pub server : Server W L V

module _ {W L V : Type 0} (m : Starting W L V) where
  open m use {listen, close, port_of, resolve_identity, getenv, new_validator, register, server}

  -- ln.Close() before an error is returned.
  give_up : L → Error → Eff W (Unit {0})
  give_up ln e = attempt (close ln) >> raise e

  -- A validator that cannot be made is nil.
  validator_of : Result V → Option V
  validator_of (ok v) = some v
  validator_of (err e) = none

  -- From the identity on.
  serve_as : L → Identity → Eff W (Unit {0})
  unfolding give_up validator_of
  serve_as ln identity =
      let broker_url = getenv "BROKER_URL" in
      if broker_url == ""
      then give_up ln (plain "missing required environment variable: BROKER_URL")
      else attempt new_validator >>= λ v.
          or_return (register broker_url identity) (λ e. give_up ln (wrap "register with broker" e))
            (λ _. run server ln (record {
              validator = validator_of v;
              broker_url = broker_url;
              runner_id = identity.runner_id;
            }))

  unfoldable pub start : String → Eff W (Unit {0})
  unfolding serve_as give_up
  start addr =
      or_return (listen addr) (λ e. raise (wrap "listen" e))
        (λ ln.
          or_return (resolve_identity (port_of ln)) (λ e. give_up ln (wrap "resolve identity" e))
            (serve_as ln))

  -- main, without the end of the process.
  unfoldable pub main : Eff W (Unit {0})
  main =
      let port = getenv "RUNNER_PORT" in
      if port == ""
      then raise (plain "missing required environment variable: RUNNER_PORT")
      else wrapping "server error" (start (":" <> port))
