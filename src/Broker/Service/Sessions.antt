-- ===== src/Broker/Service/Sessions.antt =====
-- broker/service/service.go: which runner a session gets.
use mathlib.Core.Bool.{true≢false}
use mathlib.Core.Path.{subst}
use cli_demo.Prelude.{
  ℕ, zero, suc, String, ◌≡◌, refl, sym, Bool, true, false, not, Option, none, some, ◌==◌, string_eq,
}
use cli_demo.GoError.{Error, is_error, no_idle_runner, runner_not_found}
use cli_demo.Effect.{Result, ok, err, Eff, pure, raise, attempt, ◌>>=◌}
use cli_demo.Effect.Ends.{
  Ends, Post, Any, AnyOf, Ends-pure, Ends-raise, Ends-if, Ends-bind, Ends-any,
}
use cli_demo.Broker.Store.{Runner}
use cli_demo.Broker.Service.{
  BrokerService, Checker, CreateSessionResult, ResolveResult, Health, healthy, stale, Search, got,
  bucket_empty, out_of_fuel, cancelled, checked, check_health, after_check, after_acquire,
  search_bucket, next_bucket, search_buckets, create_session, created_result, resolve_new,
  after_existing, resolve_existing, resolve_session,
}

-- The last thing that was done is a check of `url`, and it succeeded.
abbrev pub JustChecked : {W : Type 0} → Checker W → String → W → Type 0
JustChecked {W} c url w = (before : W) × (c.check url before ≡ (ok tt, w))

module _ {W : Type 0} (service : BrokerService W) (c : Checker W) where
  abbrev Found : Health → Runner → W → Type 0
  Found healthy r w = JustChecked c r.private_url w
  Found stale r w = Unit

  abbrev SearchFound : Search → W → Type 0
  SearchFound (got r) w = JustChecked c r.private_url w
  SearchFound bucket_empty w = Unit
  SearchFound out_of_fuel w = Unit

  abbrev Created : Option CreateSessionResult → W → Type 0
  Created none w = Unit
  Created (some x) w = JustChecked c x.runner.private_url w

  -- A runner that was checked, for the session that was asked for unless it is a new one.
  abbrev pub Resolved : String → Option ResolveResult → W → Type 0
  Resolved sid none w = Unit
  Resolved sid (some x) w =
      JustChecked c x.runner_url w
      × (x.created ≡ false → (x.session_id ≡ sid) × (x.reassigned ≡ false))

  check_health-Found :
      (r : Runner) → Ends Any (check_health service (some c) r) (λ h. Found h r) AnyOf
  unfolding check_health checked cancelled attempt ◌>>=◌ pure raise
  check_health-Found r = record {
    at = λ w p. go w (c.check r.private_url w).0 (c.check r.private_url w).1 refl;
  }
    where
      after_error :
          (o : Option Error) (w : W)
          → Post (λ h. Found h r) AnyOf (cancelled service o w).0 (cancelled service o w).1
      after_error none w = tt
      after_error (some e) w = tt

      go :
          (before : W) (x : Result (Unit {0})) (w : W)
          → c.check r.private_url before ≡ (x, w)
          → Post (λ h. Found h r) AnyOf (checked service x w).0 (checked service x w).1
      go before (ok u) w e = (before, e)
      go before (err f) w e = after_error (service.context_error w) w

  module _ (has : service.checker ≡ some c) where
    checker-Found :
        (r : Runner) → Ends Any (check_health service service.checker r) (λ h. Found h r) AnyOf
    checker-Found r =
        subst (λ o. Ends Any (check_health service o r) (λ h. Found h r) AnyOf) (sym has)
          (check_health-Found r)

    after_check-Found :
        (h : Health) (r : Runner) (again : Eff W Search)
        → Ends Any again SearchFound AnyOf
        → Ends (Found h r) (after_check service r again h) SearchFound AnyOf
    unfolding after_check
    after_check-Found healthy r again k = Ends-pure _ (λ w p. p)
    after_check-Found stale r again k = Ends-bind _ _ (λ _. Any) (Ends-any _) (λ _. k)

    after_acquire-Found :
        (again : Eff W Search) (x : Result (Option Runner))
        → Ends Any again SearchFound AnyOf
        → Ends Any (after_acquire service again x) SearchFound AnyOf
    unfolding after_acquire
    after_acquire-Found again (err e) k =
        Ends-if (is_error no_idle_runner e) _ _ (λ _. Ends-pure _ (λ w p. tt))
          (λ _. Ends-raise _ (λ w p. tt))
    after_acquire-Found again (ok none) k = Ends-pure _ (λ w p. tt)
    after_acquire-Found again (ok (some r)) k =
        Ends-bind _ _ (λ h. Found h r) (checker-Found r) (λ h. after_check-Found h r again k)

    search_bucket-Found :
        (fuel : ℕ) (sid : String) (bucket : ℕ)
        → Ends Any (search_bucket service fuel sid bucket) SearchFound AnyOf
    unfolding search_bucket
    search_bucket-Found zero sid bucket = Ends-pure _ (λ w p. tt)
    search_bucket-Found (suc fuel) sid bucket =
        Ends-bind _ _ (λ _. Any) (Ends-any _)
          (λ x. after_acquire-Found _ x (search_bucket-Found fuel sid bucket))

    next_bucket-Found :
        (sid : String) (rest : Eff W (Option CreateSessionResult)) (s : Search)
        → Ends Any rest Created AnyOf
        → Ends (SearchFound s) (next_bucket service sid rest s) Created AnyOf
    unfolding next_bucket
    next_bucket-Found sid rest (got r) k = Ends-pure _ (λ w p. p)
    next_bucket-Found sid rest bucket_empty k = k
    next_bucket-Found sid rest out_of_fuel k = Ends-pure _ (λ w p. tt)

    search_buckets-Found :
        (fuel : ℕ) (sid : String) (start i n : ℕ)
        → Ends Any (search_buckets service fuel sid start i n) Created AnyOf
    unfolding search_buckets
    search_buckets-Found fuel sid start i zero = Ends-raise _ (λ w p. tt)
    search_buckets-Found fuel sid start i (suc n) =
        Ends-bind _ _ SearchFound (search_bucket-Found fuel sid _)
          (λ s. next_bucket-Found sid _ s (search_buckets-Found fuel sid start (suc i) n))

    pub create_session-Found : (fuel : ℕ) → Ends Any (create_session service fuel) Created AnyOf
    unfolding create_session
    create_session-Found fuel =
        Ends-bind _ _ (λ _. Any) (Ends-any _)
          (λ sid.
            Ends-bind _ _ (λ _. Any) (Ends-any _)
              (λ start. search_buckets-Found fuel sid start 0 _))

    created_result-Resolved :
        (sid : String) (reassigned : Bool) (x : Option CreateSessionResult) (w : W)
        → Created x w
        → Resolved sid (created_result service reassigned x) w
    unfolding created_result
    created_result-Resolved sid reassigned none w h = tt
    created_result-Resolved sid reassigned (some x) w h = (h, λ e. absurd (true≢false e))

    resolve_new-Resolved :
        (fuel : ℕ) (sid : String) (reassigned : Bool)
        → Ends Any (resolve_new service fuel reassigned) (Resolved sid) AnyOf
    unfolding resolve_new
    resolve_new-Resolved fuel sid reassigned =
        Ends-bind _ _ Created (create_session-Found fuel)
          (λ x. Ends-pure _ (created_result-Resolved sid reassigned x))

    after_existing-Resolved :
        (fuel : ℕ) (sid : String) (r : Runner) (h : Health)
        → Ends (Found h r) (after_existing service fuel sid r h) (Resolved sid) AnyOf
    unfolding after_existing
    after_existing-Resolved fuel sid r healthy = Ends-pure _ (λ w p. (p, λ _. (refl, refl)))
    after_existing-Resolved fuel sid r stale =
        Ends-bind _ _ (λ _. Any) (Ends-any _) (λ _. resolve_new-Resolved fuel sid true)

    resolve_existing-Resolved :
        (fuel : ℕ) (sid : String) (x : Result Runner)
        → Ends Any (resolve_existing service fuel sid x) (Resolved sid) AnyOf
    unfolding resolve_existing
    resolve_existing-Resolved fuel sid (ok r) =
        Ends-bind _ _ (λ h. Found h r) (checker-Found r) (after_existing-Resolved fuel sid r)
    resolve_existing-Resolved fuel sid (err e) =
        Ends-if (not (is_error runner_not_found e)) _ _ (λ _. Ends-raise _ (λ w p. tt))
          (λ _. resolve_new-Resolved fuel sid false)

    -- With a health checker, ResolveSession returns a runner only if the last thing that it
    -- did was a health check of that runner's address which succeeded; and a result that is
    -- not marked as created is for the session that was asked for, and is not marked as
    -- reassigned. This holds for any repository, checker and fuel.
    pub resolve_session-Resolved :
        (fuel : ℕ) (sid : String) → Ends Any (resolve_session service fuel sid) (Resolved sid) AnyOf
    unfolding resolve_session
    resolve_session-Resolved fuel sid =
        Ends-if (sid == "") _ _ (λ _. resolve_new-Resolved fuel sid false)
          (λ _. Ends-bind _ _ (λ _. Any) (Ends-any _) (resolve_existing-Resolved fuel sid))
