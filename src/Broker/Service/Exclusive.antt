-- ===== src/Broker/Service/Exclusive.antt =====
-- broker/service/service.go: which runners have a session, when one is created.
use cli_demo.Prelude.{ℕ, zero, suc, String, ◌≡◌, Option, none, some, string_eq}
use cli_demo.GoError.{Error, is_error, no_idle_runner}
use cli_demo.Effect.{Result, ok, err, Eff}
use cli_demo.Effect.Keeps.{Keeps}
use cli_demo.Effect.Ends.{
  Ends, Post, Ends-drop, Ends-pure, Ends-raise, Ends-if, Ends-bind, Ends-keeps, Ends-attempt,
  Ends-weaken, Ends-wrapping,
}
use cli_demo.Broker.Store.{Runner, Table}
use cli_demo.Broker.Store.Exclusive.{IsExclusive, IsFree, IsOnly, Acquired, NotAcquired}
use cli_demo.Broker.Service.{
  BrokerService, Checker, CreateSessionResult, Health, healthy, stale, Search, got, bucket_empty,
  out_of_fuel, delete_stale, after_check, after_acquire, search_bucket, next_bucket, search_buckets,
  create_session,
}
use cli_demo.Broker.Service.Frames.{health-keeps}

-- The calls of the service: a new session's id is one that no runner has, an acquisition for such a
-- session gives it at most one runner, and choosing and checking change no row.
pub record IsAllotting {W : Type 0} (service : BrokerService W) (table : W → Table) : Type 1 where
  pub creates :
      Ends
        (λ w. IsExclusive (table w))
        service.session_fn
        (λ sid w. IsExclusive (table w) × IsFree sid (table w))
        (λ e w. IsExclusive (table w))
  pub picks : (n : ℕ) (P : Table → Type 0) → Keeps (λ w. P (table w)) (service.int_n n)
  pub checks :
      (P : Table → Type 0) (c : Checker W) (url : String)
      → service.checker ≡ some c
      → Keeps (λ w. P (table w)) (c.check url)
  pub acquires :
      (sid : String) (bucket : ℕ)
      → Ends
          (λ w. IsExclusive (table w) × IsFree sid (table w))
          (service.repo.acquire_idle sid bucket)
          (λ o w. Acquired sid o (table w))
          (λ e w. NotAcquired sid e (table w))
  pub deletes :
      (sid id : String)
      → Ends
          (λ w. IsExclusive (table w) × IsOnly sid id (table w))
          (service.repo.delete id)
          (λ _ w. IsExclusive (table w) × IsFree sid (table w))
          (λ _ w. IsExclusive (table w))

module _ {W : Type 0} (service : BrokerService W) (table : W → Table)
    (allotting : IsAllotting service table) where
  open allotting use {creates, picks, checks, acquires, deletes}

  abbrev Exclusive : W → Type 0
  Exclusive w = IsExclusive (table w)

  abbrev Failed : Error → W → Type 0
  Failed e w = Exclusive w

  -- The session is to be given to a runner.
  abbrev Waiting : String → W → Type 0
  Waiting sid w = Exclusive w × IsFree sid (table w)

  abbrev Given : String → String → W → Type 0
  Given sid id w = Exclusive w × IsOnly sid id (table w)

  -- What the search in one bucket leaves.
  abbrev Searched : String → Search → W → Type 0
  Searched sid (got r) w = Exclusive w
  Searched sid bucket_empty w = Waiting sid w
  Searched sid out_of_fuel w = Exclusive w

  delete_stale-Ends :
      (sid : String) (r : Runner)
      → Ends (Given sid r.runner_id) (delete_stale service r) (λ u w. Waiting sid w) Failed
  unfolding delete_stale
  delete_stale-Ends sid r = Ends-wrapping _ _ (deletes sid r.runner_id)

  after_check-Ends :
      (sid : String) (r : Runner) (again : Eff W Search) (h : Health)
      → Ends (Waiting sid) again (Searched sid) Failed
      → Ends (Given sid r.runner_id) (after_check service r again h) (Searched sid) Failed
  unfolding after_check
  after_check-Ends sid r again healthy k = Ends-pure _ (λ w p. p.0)
  after_check-Ends sid r again stale k =
      Ends-bind _ _ (λ u. Waiting sid) (delete_stale-Ends sid r) (λ u. k)

  after_acquire-Ends :
      (sid : String) (again : Eff W Search) (x : Result (Option Runner))
      → Ends (Waiting sid) again (Searched sid) Failed
      → Ends
          (Post (λ o w. Acquired sid o (table w)) (λ e w. NotAcquired sid e (table w)) x)
          (after_acquire service again x)
          (Searched sid)
          Failed
  unfolding after_acquire
  after_acquire-Ends sid again (err e) k =
      Ends-if (is_error no_idle_runner e) _ _ (λ n. Ends-pure _ (λ w p. (p.0, p.1 n)))
        (λ n. Ends-raise _ (λ w p. p.0))
  after_acquire-Ends sid again (ok none) k = Ends-pure _ (λ w p. p)
  after_acquire-Ends sid again (ok (some r)) k =
      Ends-bind _ _ (λ h. Given sid r.runner_id)
        (Ends-weaken (λ w p. p) (λ h w p. p) (λ e w p. p.0)
          (Ends-keeps _ (
            health-keeps service (Given sid r.runner_id)
              (checks (λ t. IsExclusive t × IsOnly sid r.runner_id t)) r)))
        (λ h. after_check-Ends sid r again h k)

  search_bucket-Ends :
      (fuel : ℕ) (sid : String) (bucket : ℕ)
      → Ends (Waiting sid) (search_bucket service fuel sid bucket) (Searched sid) Failed
  unfolding search_bucket
  search_bucket-Ends zero sid bucket = Ends-pure _ (λ w p. p.0)
  search_bucket-Ends (suc fuel) sid bucket =
      Ends-bind _ _ _ (Ends-attempt _ (acquires sid bucket))
        (λ x. after_acquire-Ends sid _ x (search_bucket-Ends fuel sid bucket))

  next_bucket-Ends :
      (sid : String) (rest : Eff W (Option CreateSessionResult)) (s : Search)
      → Ends (Waiting sid) rest (λ o. Exclusive) Failed
      → Ends (Searched sid s) (next_bucket service sid rest s) (λ o. Exclusive) Failed
  unfolding next_bucket
  next_bucket-Ends sid rest (got r) k = Ends-pure _ (λ w p. p)
  next_bucket-Ends sid rest bucket_empty k = k
  next_bucket-Ends sid rest out_of_fuel k = Ends-pure _ (λ w p. p)

  search_buckets-Ends :
      (fuel : ℕ) (sid : String) (start i n : ℕ)
      → Ends (Waiting sid) (search_buckets service fuel sid start i n) (λ o. Exclusive) Failed
  unfolding search_buckets
  search_buckets-Ends fuel sid start i zero = Ends-raise _ (λ w p. p.0)
  search_buckets-Ends fuel sid start i (suc n) =
      Ends-bind _ _ (Searched sid) (search_bucket-Ends fuel sid _)
        (λ s. next_bucket-Ends sid _ s (search_buckets-Ends fuel sid start (suc i) n))

  create_session-Ends :
      (fuel : ℕ) → Ends Exclusive (create_session service fuel) (λ o. Exclusive) Failed
  unfolding create_session
  create_session-Ends fuel = Ends-bind _ _ Waiting creates (λ sid.
      Ends-bind _ _ (λ start. Waiting sid)
        (Ends-weaken (λ w p. p) (λ h w p. p) (λ e w p. p.0)
          (Ends-keeps _ (picks _ (λ t. IsExclusive t × IsFree sid t))))
        (λ start. search_buckets-Ends fuel sid start 0 _))

  -- A new session leaves every session with at most one runner, however the search for an
  -- idle one goes.
  pub create_session-IsExclusive :
      (fuel : ℕ) → Keeps (λ w. IsExclusive (table w)) (create_session service fuel)
  create_session-IsExclusive fuel = record { at = Ends-drop (create_session-Ends fuel) }
