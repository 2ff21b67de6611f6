-- ===== src/Presenter/Wiring.antt =====
-- The run functions of presenter/cmd/message, connect, disconnect and login: the tables' names from the environment, and the start of the
-- function over them.
use cli_demo.Prelude.{String, ◌<>◌, ◌==◌, string_eq, if◌then◌else◌}
use cli_demo.GoError.{plain}
use cli_demo.Effect.{ok, Eff, pure, raise, ◌>>=◌, wrapping}

-- `start_lambda` is given what the handler is made of: the names, in the order in which they are read.
pub record Starter (W N : Type 0) : Type 0 where
  pub load_config : Eff W (Unit {0})
  pub getenv : String → String
  pub start_lambda : N → W → W

module _ {W N : Type 0} (s : Starter W N) where
  unfoldable pub required : String → Eff W String
  required name =
      if s.getenv name == ""
      then raise (plain (name <> " environment variable is required"))
      else pure (s.getenv name)

  unfoldable pub launch : N → Eff W (Unit {0})
  launch names w = (ok tt, s.start_lambda names w)

module _ {W : Type 0} where
  unfoldable pub run_message : Starter W (String × String × String) → Eff W (Unit {0})
  run_message s = do
    _ ← wrapping "load aws config" s.load_config
    connections ← required s "CONNECTIONS_TABLE"
    polls ← required s "POLL_VOTES_TABLE"
    states ← required s "ROOM_STATE_TABLE"
    launch s (connections, polls, states)

  unfoldable pub run_connect : Starter W (String × String) → Eff W (Unit {0})
  run_connect s = do
    _ ← wrapping "load aws config" s.load_config
    connections ← required s "CONNECTIONS_TABLE"
    sessions ← required s "SESSIONS_TABLE"
    launch s (connections, sessions)

  unfoldable pub run_disconnect : Starter W String → Eff W (Unit {0})
  run_disconnect s = do
    _ ← wrapping "load aws config" s.load_config
    connections ← required s "CONNECTIONS_TABLE"
    launch s connections

  unfoldable pub run_login : Starter W (String × String) → Eff W (Unit {0})
  run_login s = do
    _ ← wrapping "load aws config" s.load_config
    sessions ← required s "SESSIONS_TABLE"
    secret ← required s "SECRET_ARN"
    launch s (sessions, secret)
