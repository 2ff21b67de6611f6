-- ===== src/Broker/Service/Frames.antt =====
-- broker/service/service.go: what the service keeps, for whatever the repository and the checks keep.
use cli_demo.Prelude.{ℕ, String, ◌≡◌, refl, Bool, Option, none, some, string_eq}
use cli_demo.GoError.{Error}
use cli_demo.Effect.{Result, ok, err}
use cli_demo.Effect.Keeps.{Keeps, keeps_rules, Keeps-bind, Keeps-attempt}
use cli_demo.Broker.Store.{Runner}
use cli_demo.Broker.Service.{
  BrokerService, Checker, Health, healthy, stale, cancelled, checked, check_health, delete_stale,
  create_session, close_session, resolve_new, after_existing, resolve_existing, resolve_session,
}

module _ {W : Type 0} (service : BrokerService W) (P : W → Type 0)
    (checks : (c : Checker W) (url : String)
      → service.checker ≡ some c
      → Keeps P (c.check url)) where
  cancelled-keeps : (o : Option Error) → Keeps P (cancelled service o)
  unfolding cancelled
  cancelled-keeps none = search keeps_rules
  cancelled-keeps (some e) = search keeps_rules

  checked-keeps : (r : Result (Unit {0})) → Keeps P (checked service r)
  unfolding checked
  checked-keeps (ok u) = search keeps_rules
  checked-keeps (err e) = record { at = λ w h. (cancelled-keeps (service.context_error w)).at w h }

  pub check_health-keeps :
      (o : Option (Checker W)) (r : Runner)
      → service.checker ≡ o
      → Keeps P (check_health service o r)
  unfolding check_health
  check_health-keeps none r e = search keeps_rules
  check_health-keeps (some c) r e =
      Keeps-bind _ _ (Keeps-attempt _ (checks c r.private_url e)) checked-keeps

  pub health-keeps : (r : Runner) → Keeps P (check_health service service.checker r)
  health-keeps r = check_health-keeps _ r refl

-- The calls of the service on what is there.
pub record IsFramed {W : Type 0} (service : BrokerService W) (P : W → Type 0) : Type 0 where
  pub finds : (sid : String) → Keeps P (service.repo.find_by_session_id sid)
  pub deletes : (id : String) → Keeps P (service.repo.delete id)
  pub checks : (c : Checker W) (url : String) → service.checker ≡ some c → Keeps P (c.check url)

module _ {W : Type 0} (service : BrokerService W) (P : W → Type 0)
    (frame : IsFramed service P) where
  open frame use {finds, deletes, checks}

  pub delete_stale-keeps : (r : Runner) → Keeps P (delete_stale service r)
  unfolding delete_stale
  delete_stale-keeps r = search (keeps_rules, deletes)

  pub close_session-keeps : (sid : String) → Keeps P (close_session service sid)
  unfolding close_session
  close_session-keeps sid = search (keeps_rules, finds, deletes)

  module _ (creates : (fuel : ℕ) → Keeps P (create_session service fuel)) where
    resolve_new-keeps : (fuel : ℕ) (b : Bool) → Keeps P (resolve_new service fuel b)
    unfolding resolve_new
    resolve_new-keeps fuel b = search (keeps_rules, creates)

    after_existing-keeps :
        (fuel : ℕ) (sid : String) (r : Runner) (h : Health)
        → Keeps P (after_existing service fuel sid r h)
    unfolding after_existing
    after_existing-keeps fuel sid r healthy = search keeps_rules
    after_existing-keeps fuel sid r stale =
        search (keeps_rules, delete_stale-keeps, resolve_new-keeps)

    resolve_existing-keeps :
        (fuel : ℕ) (sid : String) (x : Result Runner)
        → Keeps P (resolve_existing service fuel sid x)
    unfolding resolve_existing
    resolve_existing-keeps fuel sid (ok r) =
        search (keeps_rules, health-keeps service P checks, after_existing-keeps)
    resolve_existing-keeps fuel sid (err e) = search (keeps_rules, resolve_new-keeps)

    pub resolve_session-keeps :
        (fuel : ℕ) (sid : String) → Keeps P (resolve_session service fuel sid)
    unfolding resolve_session
    resolve_session-keeps fuel sid =
        search (keeps_rules, finds, resolve_new-keeps, resolve_existing-keeps)
