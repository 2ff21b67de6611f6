-- ===== src/Broker/Main.antt =====
-- broker/main.go: the handler from the environment, and serving until a signal.
use cli_demo.Prelude.{
  String, Bool, true, false, not, Option, none, some, ◌==◌, string_eq, if◌then◌else◌,
}
use cli_demo.GoError.{plain}
use cli_demo.Effect.{Eff, pure, raise, ◌>>=◌, wrapping}

-- What the AWS configuration and the client are made of; `none` where the SDK's defaults hold.
pub record AwsOptions : Type 0 where
  pub region : String
  pub credentials : Option (String × String)
  pub endpoint : Option String

-- The service that is served: H is the type of handlers.
pub record BrokerMain (W H : Type 0) : Type 0 where
  pub getenv : String → String
  pub load_config : AwsOptions → Eff W (Unit {0})
  pub new_handler : AwsOptions → H
  -- without an error when a signal comes first
  pub listen_and_serve : H → Eff W (Unit {0})
  pub shutdown : Eff W (Unit {0})

abbrev given : String → Option String
given s = if s == "" then none else some s

-- (accessKey == "") != (secretKey == "")
abbrev differ : Bool → Bool → Bool
differ true b = not b
differ false b = b

module _ {W H : Type 0} (m : BrokerMain W H) where
  open m use {getenv, load_config, new_handler, listen_and_serve, shutdown}

  options : String → String → String → AwsOptions
  options region access_key secret_key = record {
    region = region;
    credentials = if access_key == "" then none else some (access_key, secret_key);
    endpoint = given (getenv "DYNAMODB_ENDPOINT");
  }

  unfoldable pub default_init_handler : Eff W H
  unfolding options
  default_init_handler =
      let region = getenv "AWS_REGION" in
      let access_key = getenv "AWS_ACCESS_KEY_ID" in
      let secret_key = getenv "AWS_SECRET_ACCESS_KEY" in
      if region == ""
      then raise (plain "missing required environment variable: AWS_REGION")
      else if differ (access_key == "") (secret_key == "")
      then raise
          (plain "AWS_ACCESS_KEY_ID and AWS_SECRET_ACCESS_KEY must both be set or both be empty")
      else do
        _ ← wrapping "load aws config" (load_config (options region access_key secret_key))
        pure (new_handler (options region access_key secret_key))

  unfoldable pub run : Eff W (Unit {0})
  run = do h ← wrapping "init handler" default_init_handler; _ ← listen_and_serve h; shutdown
