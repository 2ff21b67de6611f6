-- ===== src/Broker/Router.antt =====
-- broker/main.go: newRouter, and the handler that defaultInitHandler makes, over the runner repository
-- (NewBrokerService and defaultSessionFn of broker/service/service.go).
pub mod Runners
pub mod Frames
pub mod Exclusive
use cli_demo.Prelude.{
  ℕ, String, Bool, true, false, ◌&&◌, List, [], ◌∷◌, Option, none, some, ◌==◌, string_eq,
  if◌then◌else◌,
}
use cli_demo.Prelude.Bytes.{Bytes}
use cli_demo.Prelude.Dict.{Dict, lookup}
use cli_demo.GoError.{Error}
use cli_demo.Effect.{Result, Eff, pure, ◌>>=◌, wrapping, value_of}
use cli_demo.Broker.Store as Stores
use cli_demo.Broker.Store.{DynamoRepository}
use cli_demo.Broker.Service.{Repository, Checker, BrokerService}
use cli_demo.Broker.Handler.{
  Service, service_of, Answer, RegisterRequest, Url, with_request_id, default_id_fn, delete_session,
  get_resolve, post_register, delete_runner,
}

-- What the broker is made of: the repository and the health check, and the packages it calls.
pub record Broker (W I : Type 0) : Type 0 where
  pub repository : DynamoRepository W I
  pub checker : Checker W
  -- io.ReadFull of crypto/rand, and hex.EncodeToString
  pub read_full : ℕ → Eff W Bytes
  pub encode : Bytes → String
  -- math/rand/v2
  pub int_n : ℕ → Eff W ℕ
  -- ctx.Err()
  pub context_error : W → Option Error
  -- net/url
  pub parse : String → Result Url
  -- the turns that a loop may take
  pub fuel : ℕ

-- The repository as the interface of the service.
abbrev pub repository_of : {W I : Type 0} → DynamoRepository W I → ℕ → Repository W
repository_of repo fuel = record {
  find_by_session_id = Stores.find_by_session_id repo;
  register = Stores.register repo;
  acquire_idle = Stores.acquire_idle repo fuel;
  delete = Stores.delete repo;
  bucket_count = Stores.bucket_count;
}

unfoldable pub default_session_fn :
    {W : Type 0} → (ℕ → Eff W Bytes) → (Bytes → String) → Eff W String
default_session_fn read_full encode = do
  b ← wrapping "generate session id" (read_full 16)
  pure (encode b)

module _ {W : Type 0} where
  abbrev pub with_checker : Checker W → BrokerService W → BrokerService W
  with_checker c s = record s { checker = some c }

  abbrev pub with_session_fn : Option (Eff W String) → BrokerService W → BrokerService W
  with_session_fn none s = s
  with_session_fn (some fn) s = record s { session_fn = fn }

  -- The loop over the options.
  abbrev pub with_options :
      List (BrokerService W → BrokerService W) → BrokerService W → BrokerService W
  with_options [] s = s
  with_options (opt ∷ opts) s = with_options opts (opt s)

module _ {W I : Type 0} (b : Broker W I) where
  open b use {repository, checker, read_full, encode, int_n, context_error, parse, fuel}

  abbrev pub new_broker_service : List (BrokerService W → BrokerService W) → BrokerService W
  new_broker_service opts = with_options opts (record {
    repo = repository_of repository fuel;
    checker = none;
    session_fn = default_session_fn read_full encode;
    context_error = context_error;
    int_n = int_n;
  })

  abbrev pub init_service : Service W
  init_service = service_of (new_broker_service (with_checker checker ∷ [])) fuel

-- What gin gives a handler: the parameters of the path, the cookie runner_id, and the body bound to a
-- registerRequest.
pub record Context : Type 0 where
  pub params : Dict String String
  pub cookie : Result String
  pub body : Result RegisterRequest

pub data Response : Type 0 where
  text : ℕ → String → Response
  answer : Answer → Response

pub record Route (W : Type 0) : Type 0 where
  pub method : String
  pub path : String
  pub handler : Context → Eff W Response

-- c.Param: the empty string where the path has no such parameter.
abbrev param_or_empty : Option String → String
param_or_empty none = ""
param_or_empty (some v) = v

unfoldable pub param : Context → String → String
param c name = param_or_empty (lookup name c.params)

module _ {W : Type 0} (id_fn : Eff W String) (parse : String → Result Url) (svc : Service W) where
  -- A handler behind the middleware, given the request id.
  unfoldable pub behind : (String → Context → Eff W Answer) → Context → Eff W Response
  behind next c = do a ← with_request_id id_fn (λ rid. next rid c); pure (answer a)

  abbrev pub handler_routes : List (Route W)
  handler_routes =
      record {
        method = "DELETE";
        path = "/sessions/:sessionId";
        handler = behind (λ rid c. delete_session svc rid (param c "sessionId"));
      }
      ∷ record {
        method = "GET";
        path = "/resolve";
        handler = behind (λ rid c. value_of (get_resolve svc rid c.cookie));
      }
      ∷ record {
        method = "POST";
        path = "/internal/runners/register";
        handler = behind (λ rid c. post_register svc parse rid c.body);
      }
      ∷ record {
        method = "DELETE";
        path = "/internal/runners/:runnerId";
        handler = behind (λ rid c. delete_runner svc rid (param c "runnerId"));
      }
      ∷ []

module _ {W : Type 0} (id_fn : Eff W String) (parse : String → Result Url) where
  more_routes : Option (Service W) → List (Route W)
  more_routes none = []
  more_routes (some svc) = handler_routes id_fn parse svc

  -- `none` is the nil handler.
  unfoldable pub new_router : Option (Service W) → List (Route W)
  unfolding more_routes
  new_router h =
      record { method = "GET"; path = "/health"; handler = λ c. pure (text 200 "ok\n") }
      ∷ more_routes h

pub record Request : Type 0 where
  pub method : String
  pub path : String
  pub cookie : Result String
  pub body : Result RegisterRequest

-- gin: the parameters of a path that a pattern matches; a request with no route is gin's.
module _ {W : Type 0} (matches : String → String → Option (Dict String String)) where
  matched :
      Request
      → Route W
      → Eff W (Option Response)
      → Option (Dict String String)
      → Eff W (Option Response)
  matched req route rest none = rest
  matched req route rest (some params) = do
    r ← route.handler (record { params = params; cookie = req.cookie; body = req.body })
    pure (some r)

  unfoldable pub serve : List (Route W) → Request → Eff W (Option Response)
  unfolding matched
  serve [] req = pure none
  serve (route ∷ routes) req =
      let rest = serve routes req in
      if route.method == req.method
      then matched req route rest (matches route.path req.path)
      else rest

  unfoldable pub serve_all : List (Route W) → List Request → W → W
  serve_all routes [] w = w
  serve_all routes (req ∷ reqs) w = serve_all routes reqs (serve routes req w).1

module _ {W I : Type 0} (b : Broker W I) where
  -- The router of run, over the handler of defaultInitHandler.
  abbrev pub broker_router : List (Route W)
  broker_router = new_router (default_id_fn b.read_full b.encode) b.parse (some (init_service b))
