-- ===== src/Broker/Service/Creates.antt =====
-- broker/service/service.go: what creating a session keeps.
use cli_demo.Prelude.{ℕ, zero, suc, String, Option, none, some, string_eq}
use cli_demo.Effect.{Result, ok, err, Eff}
use cli_demo.Effect.Keeps.{Keeps, keeps_rules, Keeps-bind, Keeps-attempt}
use cli_demo.Effect.Ends.{Ends, AnyOf, Keeps-bind_ends}
use cli_demo.Broker.Store.{Runner}
use cli_demo.Broker.Service.{
  BrokerService, CreateSessionResult, Health, healthy, stale, Search, got, bucket_empty,
  out_of_fuel, after_check, after_acquire, search_bucket, next_bucket, search_buckets,
  create_session,
}
use cli_demo.Broker.Service.Frames.{IsFramed, health-keeps, delete_stale-keeps}

-- The calls of the service for a new session, whose id is `Named`.
pub record IsCreating {W : Type 0} (service : BrokerService W) (Named : String → Type 0)
    (P : W → Type 0) : Type 0 where
  pub acquires :
      (sid : String) (bucket : ℕ) → Named sid → Keeps P (service.repo.acquire_idle sid bucket)
  pub creates : Keeps P service.session_fn
  pub names : Ends P service.session_fn (λ sid w. Named sid) AnyOf
  pub picks : (n : ℕ) → Keeps P (service.int_n n)

module _ {W : Type 0} (service : BrokerService W) (Named : String → Type 0) (P : W → Type 0)
    (frame : IsFramed service P) (creating : IsCreating service Named P) where
  open creating use {acquires, creates, names, picks}

  after_check-keeps :
      (r : Runner) (again : Eff W Search) (h : Health)
      → Keeps P again
      → Keeps P (after_check service r again h)
  unfolding after_check
  after_check-keeps r again healthy k = search keeps_rules
  after_check-keeps r again stale k = search (keeps_rules, delete_stale-keeps service P frame)

  after_acquire-keeps :
      (again : Eff W Search) (x : Result (Option Runner))
      → Keeps P again
      → Keeps P (after_acquire service again x)
  unfolding after_acquire
  after_acquire-keeps again (err e) k = search keeps_rules
  after_acquire-keeps again (ok none) k = search keeps_rules
  after_acquire-keeps again (ok (some r)) k =
      Keeps-bind _ _ (health-keeps service P frame.checks r) (λ h. after_check-keeps r again h k)

  search_bucket-keeps :
      (fuel : ℕ) (sid : String) (bucket : ℕ)
      → Named sid
      → Keeps P (search_bucket service fuel sid bucket)
  unfolding search_bucket
  search_bucket-keeps zero sid bucket n = search keeps_rules
  search_bucket-keeps (suc fuel) sid bucket n =
      Keeps-bind _ _ (Keeps-attempt _ (acquires sid bucket n))
        (λ x. after_acquire-keeps _ x (search_bucket-keeps fuel sid bucket n))

  next_bucket-keeps :
      (sid : String) (rest : Eff W (Option CreateSessionResult)) (s : Search)
      → Keeps P rest
      → Keeps P (next_bucket service sid rest s)
  unfolding next_bucket
  next_bucket-keeps sid rest (got r) k = search keeps_rules
  next_bucket-keeps sid rest bucket_empty k = k
  next_bucket-keeps sid rest out_of_fuel k = search keeps_rules

  search_buckets-keeps :
      (fuel : ℕ) (sid : String) (start i n : ℕ)
      → Named sid
      → Keeps P (search_buckets service fuel sid start i n)
  unfolding search_buckets
  search_buckets-keeps fuel sid start i zero named = search keeps_rules
  search_buckets-keeps fuel sid start i (suc n) named =
      Keeps-bind _ _ (search_bucket-keeps fuel sid _ named)
        (λ s. next_bucket-keeps sid _ s (search_buckets-keeps fuel sid start (suc i) n named))

  pub create_session-keeps : (fuel : ℕ) → Keeps P (create_session service fuel)
  unfolding create_session
  create_session-keeps fuel = Keeps-bind_ends Named _ _ creates names (λ sid named.
      Keeps-bind _ _ (picks _) (λ start. search_buckets-keeps fuel sid start 0 _ named))
