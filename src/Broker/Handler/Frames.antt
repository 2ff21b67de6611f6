-- ===== src/Broker/Handler/Frames.antt =====
-- broker/handler: what the handlers keep, for whatever the service keeps.
use cli_demo.Prelude.{String}
use cli_demo.Effect.{Result, Eff}
use cli_demo.Effect.Keeps.{Keeps, keeps_rules, Keeps-or_return}
use cli_demo.Prelude.{ℕ}
use cli_demo.Broker.Handler.{
  Service, Answer, RegisterRequest, Url, write_error, with_request_id, delete_session, get_resolve,
  post_register, delete_runner,
}

module _ {W : Type 0} {P : W → Type 0} where
  pub write_error-keeps :
      (rid : String) (n : ℕ) (code message : String) → Keeps P (write_error rid n code message)
  unfolding write_error
  write_error-keeps rid n code message = search keeps_rules

  pub with_request_id-keeps :
      (id_fn : Eff W String) (next : String → Eff W Answer)
      → Keeps P id_fn
      → ((rid : String) → Keeps P (next rid))
      → Keeps P (with_request_id id_fn next)
  unfolding with_request_id
  with_request_id-keeps id_fn next ids k = search (keeps_rules, Keeps-or_return)

ruleset handler_rules = (keeps_rules, Keeps-or_return, write_error-keeps)

module _ {W : Type 0} (svc : Service W) (P : W → Type 0) where
  pub delete_session-keeps :
      ((sid : String) → Keeps P (svc.close sid))
      → (rid sid : String) → Keeps P (delete_session svc rid sid)
  unfolding delete_session
  delete_session-keeps closes rid sid = search (handler_rules, closes)

  pub get_resolve-keeps :
      ((sid : String) → Keeps P (svc.resolve sid))
      → (rid : String) (cookie : Result String) → Keeps P (get_resolve svc rid cookie)
  unfolding get_resolve
  get_resolve-keeps resolves rid cookie = search (handler_rules, resolves)

  pub post_register-keeps :
      ((id url : String) → Keeps P (svc.register id url))
      → (parse : String → Result Url) (rid : String) (body : Result RegisterRequest)
      → Keeps P (post_register svc parse rid body)
  unfolding post_register
  post_register-keeps registers parse rid body = search (handler_rules, registers) depth 9

  pub delete_runner-keeps :
      ((id : String) → Keeps P (svc.deregister id))
      → (rid id : String) → Keeps P (delete_runner svc rid id)
  unfolding delete_runner
  delete_runner-keeps deregisters rid id = search (handler_rules, deregisters)
