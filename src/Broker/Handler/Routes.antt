-- ===== src/Broker/Handler/Routes.antt =====
-- broker/handler/handler.go: where GET /resolve sends a visitor.
use cli_demo.Prelude.{
  ℕ, ◌≤◌, ◌<◌, String, ◌≡◌, refl, ◌⊎◌, inl, inr, Bool, true, false, [], ◌∷◌, ◌++◌, Option, none,
  some, string_eq, if◌then◌else◌, arith,
}
use cli_demo.Prelude.Dict.{lookup}
use cli_demo.GoError.{Error, is_error, no_idle_runner}
use cli_demo.Effect.{Result, pure, ◌>>=◌}
use cli_demo.Effect.Ends.{Ends, Any, Ends-pure, Ends-if, Ends-and, Ends-or_return, Ends-weaken}
use cli_demo.Broker.Service.{BrokerService, Checker, ResolveResult, resolve_session}
use cli_demo.Broker.Service.Sessions.{JustChecked, Resolved, resolve_session-Resolved}
use cli_demo.Broker.Service.Progress.{IsFinite, Present, resolve_session-Present}
use cli_demo.Broker.Handler.{
  Answer, reassigned_header, created_cookie, service_of, cookie_value, resolved_answer, write_error,
  get_resolve,
}

url_of :
    (reassigned : Bool) (url : String)
    → lookup "X-Runner-Url" (reassigned_header reassigned ++ ("X-Runner-Url", url) ∷ []) ≡ some url
unfolding lookup
url_of true url = refl
url_of false url = refl

not_reassigned :
    (created reassigned : Bool) (id url : String)
    → (created ≡ false → reassigned ≡ false)
    → created_cookie created id ≡ none
    → lookup "X-Session-Reassigned" (reassigned_header reassigned ++ ("X-Runner-Url", url) ∷ [])
      ≡ none
unfolding lookup
not_reassigned true reassigned id url h e = ground (arith, e)
not_reassigned false true id url h e = ground (arith, h refl)
not_reassigned false false id url h e = refl

module _ {W : Type 0} (service : BrokerService W) (c : Checker W) where
  -- A visitor is sent to an address whose check has just succeeded. One that gets no cookie keeps the
  -- session of the request, and is not told of another runner.
  abbrev pub IsSent : Answer → W → Type 0
  IsSent a w =
      (a.status ≡ 200)
      × ((url : String) × (lookup "X-Runner-Url" a.headers ≡ some url) × JustChecked c url w)
      × (a.cookie ≡ none → lookup "X-Session-Reassigned" a.headers ≡ none)

  abbrev pub IsTurnedAway : Answer → Type 0
  IsTurnedAway a =
      ((a.status ≡ 503) ⊎ (a.status ≡ 500))
      × (a.cookie ≡ none)
      × (lookup "X-Runner-Url" a.headers ≡ none)

  abbrev pub IsRouted : Option Answer → W → Type 0
  IsRouted none w = ⊥
  IsRouted (some a) w = IsSent a w ⊎ IsTurnedAway a

  resolved_answer-IsRouted :
      (sid : String) (o : Option ResolveResult) (w : W)
      → Present o
      → Resolved service c sid o w
      → IsRouted (resolved_answer o) w
  unfolding resolved_answer
  resolved_answer-IsRouted sid none w p h = absurd p
  resolved_answer-IsRouted sid (some r) w p h = inl (
    refl,
    (r.runner_url, url_of r.reassigned r.runner_url, h.0),
    not_reassigned r.created r.reassigned r.session_id r.runner_url (λ e. (h.1 e).1),
  )

  failed-IsRouted :
      (rid : String) (e : Error)
      → Ends Any
          (if is_error no_idle_runner e
            then write_error rid 503 "NO_IDLE_RUNNER" "no idle runner available"
              >>= (λ a. pure (some a))
            else write_error rid 500 "INTERNAL_ERROR" "failed to resolve session"
              >>= (λ a. pure (some a)))
          IsRouted
          (λ e w. ⊥)
  unfolding write_error pure ◌>>=◌ lookup
  failed-IsRouted rid e =
      Ends-if (is_error no_idle_runner e) _ _
        (λ idle. record { at = λ w p. inr (inl refl, refl, refl) })
        (λ other. record { at = λ w p. inr (inr refl, refl, refl) })

  -- GET /resolve over the broker's service always answers: with status 200 and a runner's
  -- address whose health check was the last thing done and succeeded, where an answer that
  -- sets no cookie does not say that the session was reassigned; or with status 503 or 500, no
  -- cookie and no address. There is a health checker, the fuel is more than the runners that
  -- can be acquired, acquisition ends and uses one up, and no other call makes more of them.
  pub get_resolve-IsRouted :
      (left : W → ℕ)
      → IsFinite service left
      → service.checker ≡ some c
      → (fuel n : ℕ) → n < fuel
      → (rid : String) (cookie : Result String)
      → Ends
          (λ w. left w ≤ n)
          (get_resolve (service_of service fuel) rid cookie)
          IsRouted
          (λ e w. ⊥)
  unfolding get_resolve
  get_resolve-IsRouted left law is_c fuel n h rid cookie =
      let sid = cookie_value cookie in
      Ends-or_return (resolve_session service fuel sid) _ _ _ _
        (Ends-and _ (resolve_session-Present service left law fuel n h sid) (
          Ends-weaken (λ w p. tt) (λ a w q. q) (λ e w q. q)
            (resolve_session-Resolved service c is_c fuel sid)))
        (λ e. Ends-weaken (λ w p. tt) (λ a w q. q) (λ e w q. q) (failed-IsRouted rid e))
        (λ o. Ends-pure _ (λ w p. resolved_answer-IsRouted sid o w p.0 p.1))
