-- ===== src/Broker/Router/Frames.antt =====
-- broker/main.go: what the router keeps, for whatever the repository and new sessions keep.
use cli_demo.Prelude.{ℕ, String, List, [], ◌∷◌, Option, none, some, string_eq, All}
use cli_demo.Prelude.Dict.{Dict}
use cli_demo.Effect.{Eff}
use cli_demo.Effect.Keeps.{Keeps, Keeps-pure, Keeps-bind, Keeps-if, Keeps-wrapping, value_of-keeps}
use cli_demo.Broker.Store as Stores
use cli_demo.Broker.Service.{create_session, register_runner, deregister_runner}
use cli_demo.Broker.Service.Frames.{IsFramed, resolve_session-keeps, close_session-keeps}
use cli_demo.Broker.Handler.{Answer, default_id_fn}
use cli_demo.Broker.Handler.Frames.{
  with_request_id-keeps, delete_session-keeps, get_resolve-keeps, post_register-keeps,
  delete_runner-keeps,
}
use cli_demo.Broker.Router.{
  Broker, new_broker_service, init_service, with_checker, Context, Response, Route, behind, param,
  new_router, more_routes, Request, matched, serve, serve_all, broker_router,
}

module _ {W I : Type 0} (b : Broker W I) (P : W → Type 0)
    (reads : (n : ℕ) → Keeps P (b.read_full n))
    (registers : (id url : String) → Keeps P (Stores.register b.repository id url))
    (frame : IsFramed (new_broker_service b (with_checker b.checker ∷ [])) P)
    (creates : (fuel : ℕ)
      → Keeps P (create_session (new_broker_service b (with_checker b.checker ∷ [])) fuel)) where
  id_fn-keeps : Keeps P (default_id_fn b.read_full b.encode)
  unfolding default_id_fn
  id_fn-keeps = Keeps-bind _ _ (Keeps-wrapping _ _ (reads 16)) (λ bs. Keeps-pure _)

  behind-keeps :
      (next : String → Context → Eff W Answer)
      → ((rid : String) (c : Context) → Keeps P (next rid c))
      → (c : Context)
      → Keeps P (behind (default_id_fn b.read_full b.encode) b.parse (init_service b) next c)
  unfolding behind
  behind-keeps next k c =
      Keeps-bind _ _ (with_request_id-keeps _ _ id_fn-keeps (λ rid. k rid c)) (λ a. Keeps-pure _)

  -- Every handler of the routes.
  AllKeep : List (Route W) → Type 0
  AllKeep routes = All (λ route. (c : Context) → Keeps P (route.handler c)) routes

  router-keeps : AllKeep (broker_router b)
  unfolding AllKeep new_router more_routes register_runner deregister_runner
  router-keeps = (
    (λ c. Keeps-pure _),
    (
      behind-keeps _ (λ rid c.
          delete_session-keeps _ P (close_session-keeps _ P frame) rid (param c "sessionId")),
      (
        behind-keeps _ (λ rid c.
            value_of-keeps _ (
              get_resolve-keeps _ P (resolve_session-keeps _ P frame creates b.fuel) rid c.cookie)),
        (
          behind-keeps _ (λ rid c. post_register-keeps _ P registers b.parse rid c.body),
          (
            behind-keeps _
                (λ rid c. delete_runner-keeps _ P frame.deletes rid (param c "runnerId")),
            tt,
          ),
        ),
      ),
    ),
  )

  module _ (matches : String → String → Option (Dict String String)) where
    matched-keeps :
        (req : Request) (route : Route W) (rest : Eff W (Option Response))
        (o : Option (Dict String String))
        → ((c : Context) → Keeps P (route.handler c))
        → Keeps P rest
        → Keeps P (matched matches req route rest o)
    unfolding matched
    matched-keeps req route rest none k r = r
    matched-keeps req route rest (some params) k r = Keeps-bind _ _ (k _) (λ a. Keeps-pure _)

    serve-keeps :
        (routes : List (Route W)) (req : Request)
        → AllKeep routes
        → Keeps P (serve matches routes req)
    unfolding serve AllKeep
    serve-keeps [] req all = Keeps-pure _
    serve-keeps (route ∷ routes) req all =
        let rest = serve-keeps routes req all.1 in
        Keeps-if _ _ _ (matched-keeps req route _ _ all.0 rest) rest

    -- What the parts keep, any sequence of requests keeps.
    pub serve_all-keeps :
        (reqs : List Request) (w : W) → P w → P (serve_all matches (broker_router b) reqs w)
    unfolding serve_all
    serve_all-keeps [] w h = h
    serve_all-keeps (req ∷ reqs) w h =
        serve_all-keeps reqs _ ((serve-keeps (broker_router b) req router-keeps).at w h)
