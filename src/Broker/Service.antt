-- ===== src/Broker/Service.antt =====
-- broker/service/service.go: sessions over the runner repository, which is an interface here as there.
pub mod Sessions
pub mod Exhaustion
pub mod Progress
pub mod Frames
pub mod Creates
pub mod Exclusive
use cli_demo.Prelude.{
  ℕ, zero, suc, ◌+◌, ◌%◌, String, ◌<>◌, Bool, true, false, not, List, Option, none, some, ◌==◌,
  string_eq, if◌then◌else◌,
}
use cli_demo.GoError.{Error, sentinel, wrap, runner_not_found, no_idle_runner, is_error}
use cli_demo.Effect.{Result, ok, err, Eff, pure, raise, lift, attempt, ◌>>=◌, ◌>>◌, wrapping}
use cli_demo.Broker.Store.{Runner}

-- store.Repository, store/repository.go
pub record Repository (W : Type 0) : Type 0 where
  pub find_by_session_id : String → Eff W Runner
  pub register : String → String → Eff W (Unit {0})
  -- `none`: the loop in it did not end within its fuel
  pub acquire_idle : String → ℕ → Eff W (Option Runner)
  pub delete : String → Eff W (Unit {0})
  pub bucket_count : ℕ

-- healthcheck.Checker, with the context's error as a reader beside it.
pub record Checker (W : Type 0) : Type 0 where
  pub check : String → Eff W (Unit {0})

pub record CreateSessionResult : Type 0 where
  pub session_id : String
  pub runner : Runner

pub record ResolveResult : Type 0 where
  pub session_id : String
  pub runner_url : String
  pub created : Bool
  pub reassigned : Bool

-- The struct; `context_error` is ctx.Err(), and `int_n` the function of math/rand/v2.
pub record BrokerService (W : Type 0) : Type 0 where
  pub repo : Repository W
  pub checker : Option (Checker W)
  pub session_fn : Eff W String
  pub context_error : W → Option Error
  pub int_n : ℕ → Eff W ℕ

-- What became of the check of one runner: it is healthy, or the record is to be deleted.
pub data Health : Type 0 where
  healthy stale : Health

-- How the search in one bucket ended.
pub data Search : Type 0 where
  got : Runner → Search
  bucket_empty : Search
  out_of_fuel : Search

module _ {W : Type 0} (service : BrokerService W) where
  open service use {repo, checker, session_fn, context_error, int_n}

  cancelled : Option Error → Eff W Health
  cancelled none = pure stale
  cancelled (some e) = raise e

  checked : Result (Unit {0}) → Eff W Health
  unfolding cancelled
  checked (ok u) = pure healthy
  checked (err e) = λ w. cancelled (context_error w) w

  unfoldable pub check_health : Option (Checker W) → Runner → Eff W Health
  unfolding checked
  check_health none r = pure healthy
  check_health (some c) r = do x ← attempt (c.check r.private_url); checked x

  unfoldable pub delete_stale : Runner → Eff W (Unit {0})
  delete_stale r = wrapping ("delete unhealthy runner " <> r.runner_id) (repo.delete r.runner_id)

  -- After the check of an acquired runner: the result, or the next turn of the loop.
  after_check : Runner → Eff W Search → Health → Eff W Search
  after_check r again healthy = pure (got r)
  after_check r again stale = delete_stale r >> again

  after_acquire : Eff W Search → Result (Option Runner) → Eff W Search
  unfolding after_check
  after_acquire again (err e) = if is_error no_idle_runner e then pure bucket_empty else raise e
  after_acquire again (ok none) = pure out_of_fuel
  after_acquire again (ok (some r)) = do h ← check_health checker r; after_check r again h

  -- The inner loop, on fuel.
  unfoldable pub search_bucket : ℕ → String → ℕ → Eff W Search
  unfolding after_acquire
  search_bucket zero sid bucket = pure out_of_fuel
  search_bucket (suc fuel) sid bucket = do
    x ← attempt (repo.acquire_idle sid bucket)
    after_acquire (search_bucket fuel sid bucket) x

  next_bucket :
      String → Eff W (Option CreateSessionResult) → Search → Eff W (Option CreateSessionResult)
  next_bucket sid rest (got r) = pure (some (record { session_id = sid; runner = r }))
  next_bucket sid rest bucket_empty = rest
  next_bucket sid rest out_of_fuel = pure none

  -- The outer loop: `n` buckets are left, from `start + i` on.
  unfoldable pub search_buckets : ℕ → String → ℕ → ℕ → ℕ → Eff W (Option CreateSessionResult)
  unfolding next_bucket
  search_buckets fuel sid start i zero = raise (sentinel no_idle_runner)
  search_buckets fuel sid start i (suc n) = do
    s ← search_bucket fuel sid ((start + i) % repo.bucket_count)
    next_bucket sid (search_buckets fuel sid start (suc i) n) s

  unfoldable pub create_session : ℕ → Eff W (Option CreateSessionResult)
  create_session fuel = do
    sid ← session_fn
    start ← int_n repo.bucket_count
    search_buckets fuel sid start 0 repo.bucket_count

  unfoldable pub close_session : String → Eff W (Unit {0})
  close_session sid = do r ← repo.find_by_session_id sid; repo.delete r.runner_id

  abbrev pub resolved : String → Runner → ResolveResult
  resolved sid r = record {
    session_id = sid;
    runner_url = r.private_url;
    created = false;
    reassigned = false;
  }

  created_result : Bool → Option CreateSessionResult → Option ResolveResult
  created_result reassigned none = none
  created_result reassigned (some c) = some (record {
    session_id = c.session_id;
    runner_url = c.runner.private_url;
    created = true;
    reassigned = reassigned;
  })

  unfoldable pub resolve_new : ℕ → Bool → Eff W (Option ResolveResult)
  unfolding created_result
  resolve_new fuel reassigned = do c ← create_session fuel; pure (created_result reassigned c)

  after_existing : ℕ → String → Runner → Health → Eff W (Option ResolveResult)
  after_existing fuel sid r healthy = pure (some (resolved sid r))
  after_existing fuel sid r stale = delete_stale r >> resolve_new fuel true

  resolve_existing : ℕ → String → Result Runner → Eff W (Option ResolveResult)
  unfolding after_existing
  resolve_existing fuel sid (ok r) = do h ← check_health checker r; after_existing fuel sid r h
  resolve_existing fuel sid (err e) =
      if not (is_error runner_not_found e) then raise e else resolve_new fuel false

  -- ResolveSession; `none` means that the fuel ran out.
  unfoldable pub resolve_session : ℕ → String → Eff W (Option ResolveResult)
  unfolding resolve_existing
  resolve_session fuel sid =
      if sid == ""
      then resolve_new fuel false
      else do x ← attempt (repo.find_by_session_id sid); resolve_existing fuel sid x

  unfoldable pub register_runner : String → String → Eff W (Unit {0})
  register_runner id url = repo.register id url

  unfoldable pub deregister_runner : String → Eff W (Unit {0})
  deregister_runner id = repo.delete id
