-- ===== src/Tests/Runner.antt =====
-- Instances of the runner's theorems.
use Prim.Native.Char.{Char, char}
use cli_demo.Prelude.{
  ◌<>◌, String, ◌≡◌, refl, Bool, true, false, List, [], ◌∷◌, ◌==◌, ◌||◌, string_eq, none, ◌⊎◌,
}
use cli_demo.Prelude.Dict.{Dict}
use cli_demo.GoError.{Error, plain, wrap}
use cli_demo.Effect.{Result, ok, err, ◌>>=◌, wrapping}
use cli_demo.Effect.Ends.{Ends, Any, AnyOf}
use cli_demo.Runner.Identity.{IdentityDeps, resolve_from_ecs, after_slash}
use cli_demo.Runner.Identity.Arn.{IsTaskName, resolve_from_ecs-IsTaskName}
use cli_demo.Runner.Main.{Server, run}
use cli_demo.Runner.Main.Shutdown.{IsEnding, run-Ends}
use cli_demo.Runner.Session.{SessionManager, create, delete}
use cli_demo.Runner.Session.Lifecycle.{Added, Removed, NotRemoved, create-Added, delete-Removed}
use cli_demo.Runner.Validate.{trim_space, is_space, is_meta_char, classify_command}
use cli_demo.Runner.Validate.Whitelist.{classify_command-meta}

-- The world is the list of the shells that were closed; the shell sh2 fails to close.
abbrev closed : String → List String → Bool
closed s [] = false
closed s (r ∷ w) = r == s || closed s w

abbrev close_answer : Bool → Result (Unit {0})
close_answer true = err (plain "kill: no such process")
close_answer false = ok tt

abbrev manager : SessionManager (List String) String
manager = record {
  gen_id = λ w. (ok "b", w);
  quote = λ s. "\"" <> s <> "\"";
  new_shell = λ w. (ok "sh3", w);
  close = λ s w. (close_answer (s == "sh2"), s ∷ w);
}

abbrev two : Dict String String
two = ("a", "sh1") ∷ ("c", "sh2") ∷ []

create-Added_example : Ends (λ w. w.0 ≡ two) (create manager) (Added manager two) (λ _ w. w.0 ≡ two)
create-Added_example = create-Added manager two

delete-Removed_example :
    Ends
      (λ w. w.0 ≡ two)
      (delete manager "c")
      (λ _. Removed manager two "c")
      (NotRemoved manager two "c")
delete-Removed_example = delete-Removed manager two "c"

abbrev semicolon : Char
semicolon = char 59 tt

classify_command-meta_example : classify_command " which ls; whoami\n" ≡ "validated"
unfolding trim_space is_meta_char is_space
classify_command-meta_example =
    classify_command-meta " which ls; whoami\n" "which ls" " whoami" semicolon refl refl refl

-- The world says whether the runner left the pool, and whether its shells were closed; the broker
-- cannot be reached.
abbrev server : Server (Bool × Bool) (Unit {0}) (Unit {0})
server = record {
  serve = λ ln v w. (ok tt, w);
  deregister = λ url id w. (err (plain "connection refused"), (true, w.1));
  shutdown = λ w. (err (plain "deadline exceeded"), w);
  close_all = λ w. (ok tt, (w.0, true));
}

server-IsEnding : IsEnding server (λ w. w.0 ≡ true) (λ w. w.1 ≡ true)
server-IsEnding = record {
  deregisters = λ url id. record { at = λ w p. refl };
  shutdown_keeps = record { at = λ w p. p };
  closes = record { at = λ w p. refl };
  close_all_keeps = record { at = λ w p. p };
}

run-Ends_example :
    Ends Any
      (run server tt (record { validator = none; broker_url = "http://b"; runner_id = "r1" }))
      (λ _ w. (w.0 ≡ true) × (w.1 ≡ true))
      (λ e w. ((cause : Error) × (e ≡ wrap "serve" cause)) ⊎ ((w.0 ≡ true) × (w.1 ≡ true)))
run-Ends_example =
    run-Ends server (λ w. w.0 ≡ true) (λ w. w.1 ≡ true) server-IsEnding
      (record { validator = none; broker_url = "http://b"; runner_id = "r1" }) refl tt

-- The metadata is the ARN, and the address of the container.
abbrev task_arn : String
task_arn = "arn:aws:ecs:ap-northeast-1:123456789012:task/demo/0af1"

abbrev identity_deps : IdentityDeps (Unit {0})
identity_deps = record {
  getenv = λ name. "http://169.254.170.2/v4";
  hostname = λ w. (ok "host", w);
  http_get = λ url w. (ok url, w);
  port = "3000";
  unmarshal_task = λ body. ok task_arn;
  unmarshal_container = λ body. ok (("10.0.0.7" ∷ []) ∷ []);
}

resolve_from_ecs-IsTaskName_example :
    Ends
      (λ w. w ≡ tt)
      (resolve_from_ecs identity_deps "http://169.254.170.2/v4")
      (λ i w. IsTaskName identity_deps "http://169.254.170.2/v4" tt i)
      AnyOf
resolve_from_ecs-IsTaskName_example =
    resolve_from_ecs-IsTaskName identity_deps "http://169.254.170.2/v4" tt

resolved_id :
    (resolve_from_ecs identity_deps "http://169.254.170.2/v4" tt).0
    ≡ ok (record { runner_id = "0af1"; private_url = "http://10.0.0.7:3000" })
unfolding resolve_from_ecs after_slash ◌>>=◌ wrapping
resolved_id = refl
