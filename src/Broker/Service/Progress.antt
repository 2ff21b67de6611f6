-- ===== src/Broker/Service/Progress.antt =====
-- broker/service/service.go: how long the search for a runner goes on.
use cli_demo.Prelude.{
  ℕ, zero, suc, ◌≤◌, ◌<◌, String, ◌≡◌, refl, Bool, true, false, not, Option, none, some, arith,
  ◌==◌, string_eq,
}
use cli_demo.GoError.{Error, is_error, no_idle_runner, runner_not_found}
use cli_demo.Effect.{Result, ok, err, Eff, pure, raise, attempt, ◌>>=◌}
use cli_demo.Effect.Keeps.{Keeps}
use cli_demo.Effect.Ends.{
  Ends, Post, AnyOf, Ends-pure, Ends-raise, Ends-if, Ends-bind, Ends-keeps, Ends-wrapping,
  Ends-weaken, Ends-attempt, Ends-attempt_both,
}
use cli_demo.Broker.Store.{Runner}
use cli_demo.Broker.Service.{
  BrokerService, Checker, CreateSessionResult, Health, healthy, stale, Search, got, bucket_empty,
  out_of_fuel, cancelled, checked, check_health, delete_stale, after_check, after_acquire,
  search_bucket, next_bucket, search_buckets, create_session, created_result, resolve_new,
  after_existing, resolve_existing, resolve_session,
}

abbrev pub Present : {A : Type 0} → Option A → Type 0
Present none = ⊥
Present (some a) = Unit

-- `left w`: how many runners can be acquired. An acquisition ends, with a runner or an error, and one
-- that gives a runner makes the number less; no other call makes it more.
pub record IsFinite {W : Type 0} (service : BrokerService W) (left : W → ℕ) : Type 0 where
  pub acquire_uses :
      (sid : String) (b n : ℕ)
      → Ends
          (λ w. left w ≤ n)
          (service.repo.acquire_idle sid b)
          (λ o w. Present o × (left w < n))
          (λ e w. left w ≤ n)
  pub find_keeps :
      (n : ℕ) (sid : String) → Keeps (λ w. left w ≤ n) (service.repo.find_by_session_id sid)
  pub delete_keeps : (n : ℕ) (id : String) → Keeps (λ w. left w ≤ n) (service.repo.delete id)
  pub check_keeps :
      (n : ℕ) (c : Checker W)
      → service.checker ≡ some c
      → (url : String) → Keeps (λ w. left w ≤ n) (c.check url)
  pub session_fn_keeps : (n : ℕ) → Keeps (λ w. left w ≤ n) service.session_fn
  pub int_n_keeps : (n k : ℕ) → Keeps (λ w. left w ≤ n) (service.int_n k)

module _ {W : Type 0} (service : BrokerService W) (left : W → ℕ) (law : IsFinite service left) where
  abbrev Left : ℕ → W → Type 0
  Left n w = left w ≤ n

  -- Found a runner or came to the end of the bucket.
  abbrev Done : ℕ → Search → W → Type 0
  Done n (got r) w = Unit
  Done n bucket_empty w = left w ≤ n
  Done n out_of_fuel w = ⊥

  check_health-Left :
      (n : ℕ) (o : Option (Checker W)) (r : Runner)
      → service.checker ≡ o
      → Ends (Left n) (check_health service o r) (λ _. Left n) (λ _. Left n)
  unfolding check_health checked cancelled attempt ◌>>=◌ pure raise
  check_health-Left n none r e = record { at = λ w p. p }
  check_health-Left n (some c) r e = record {
    at = λ w p.
        go (c.check r.private_url w).0 (c.check r.private_url w).1
          ((law.check_keeps n c e r.private_url).at w p);
  }
    where
      after_error :
          (o : Option Error) (w : W)
          → Left n w
          → Post (λ _. Left n) (λ _. Left n) (cancelled service o w).0 (cancelled service o w).1
      after_error none w p = p
      after_error (some x) w p = p

      go :
          (x : Result (Unit {0})) (w : W)
          → Left n w
          → Post (λ _. Left n) (λ _. Left n) (checked service x w).0 (checked service x w).1
      go (ok u) w p = p
      go (err f) w p = after_error (service.context_error w) w p

  delete_stale-Left :
      (n : ℕ) (r : Runner) → Ends (Left n) (delete_stale service r) (λ _. Left n) (λ _. Left n)
  unfolding delete_stale
  delete_stale-Left n r = Ends-wrapping _ _ (Ends-keeps _ (law.delete_keeps n r.runner_id))

  after_check-Done :
      (n : ℕ) (h : Health) (r : Runner) (again : Eff W Search)
      → Ends (Left n) again (Done n) AnyOf
      → Ends (Left n) (after_check service r again h) (Done n) AnyOf
  unfolding after_check
  after_check-Done n healthy r again k = Ends-pure _ (λ w p. tt)
  after_check-Done n stale r again k =
      Ends-bind _ _ (λ _. Left n)
        (Ends-weaken (λ w p. p) (λ a w q. q) (λ e w q. tt) (delete_stale-Left n r)) (λ _. k)

  -- What an acquisition left behind, as a value.
  abbrev Acquired : ℕ → Result (Option Runner) → W → Type 0
  Acquired n = Post (λ o w. Present o × (left w < n)) (λ e. Left n)

  Done-mono : (n : ℕ) (s : Search) (w : W) → Done n s w → Done (suc n) s w
  Done-mono n (got r) w q = tt
  Done-mono n bucket_empty w q = omega (arith, q)
  Done-mono n out_of_fuel w q = q

  -- The rest of the loop needs to end only where a runner was acquired, and then fewer are left.
  after_acquire-Done :
      (n : ℕ) (again : Eff W Search) (x : Result (Option Runner))
      → ((m : ℕ) → m < n → Ends (Left m) again (Done m) AnyOf)
      → Ends (Acquired n x) (after_acquire service again x) (Done n) AnyOf
  unfolding after_acquire
  after_acquire-Done n again (err e) k =
      Ends-if (is_error no_idle_runner e) _ _ (λ _. Ends-pure _ (λ w p. p))
        (λ _. Ends-raise _ (λ w p. tt))
  after_acquire-Done n again (ok none) k = record { at = λ w p. absurd p.0 }
  after_acquire-Done zero again (ok (some r)) k = record { at = λ w p. absurd (none_below p.1) }
    where
      none_below : {m : ℕ} → ¬ (m < 0)
      none_below l = omega arith
  after_acquire-Done (suc n) again (ok (some r)) k =
      Ends-bind _ _ (λ _. Left n)
        (Ends-weaken (λ w p. omega (arith, p.1)) (λ a w q. q) (λ e w q. tt)
          (check_health-Left n service.checker r refl))
        (λ h.
          Ends-weaken (λ w p. p) (Done-mono n) (λ e w q. tt)
            (after_check-Done n h r again (k n (omega arith))))

  search_bucket-Done :
      (fuel : ℕ) (sid : String) (b n : ℕ)
      → n < fuel
      → Ends (Left n) (search_bucket service fuel sid b) (Done n) AnyOf
  unfolding search_bucket
  search_bucket-Done zero sid b n l = absurd (nothing l)
    where
      nothing : {m : ℕ} → ¬ (m < 0)
      nothing l = omega arith
  search_bucket-Done (suc fuel) sid b n l =
      Ends-bind _ _ (Acquired n) (Ends-attempt _ (law.acquire_uses sid b n)) (λ x.
        after_acquire-Done n _ x (λ m k. search_bucket-Done fuel sid b m (omega (arith, l, k))))

  next_bucket-Present :
      (n : ℕ) (sid : String) (rest : Eff W (Option CreateSessionResult)) (s : Search)
      → Ends (Left n) rest (λ o w. Present o) AnyOf
      → Ends (Done n s) (next_bucket service sid rest s) (λ o w. Present o) AnyOf
  unfolding next_bucket
  next_bucket-Present n sid rest (got r) k = Ends-pure _ (λ w p. tt)
  next_bucket-Present n sid rest bucket_empty k = k
  next_bucket-Present n sid rest out_of_fuel k = record { at = λ w p. absurd p }

  module _ (fuel n : ℕ) (enough : n < fuel) where
    search_buckets-Present :
        (sid : String) (start i k : ℕ)
        → Ends (Left n) (search_buckets service fuel sid start i k) (λ o w. Present o) AnyOf
    unfolding search_buckets
    search_buckets-Present sid start i zero = Ends-raise _ (λ w p. tt)
    search_buckets-Present sid start i (suc k) =
        Ends-bind _ _ (Done n) (search_bucket-Done fuel sid _ n enough)
          (λ s. next_bucket-Present n sid _ s (search_buckets-Present sid start (suc i) k))

    create_session-Present : Ends (Left n) (create_session service fuel) (λ o w. Present o) AnyOf
    unfolding create_session
    create_session-Present =
        Ends-bind _ _ (λ _. Left n)
          (Ends-weaken (λ w p. p) (λ a w q. q) (λ e w q. tt)
            (Ends-keeps _ (law.session_fn_keeps n)))
          (λ sid.
            Ends-bind _ _ (λ _. Left n)
              (Ends-weaken (λ w p. p) (λ a w q. q) (λ e w q. tt)
                (Ends-keeps _ (law.int_n_keeps n _)))
              (λ start. search_buckets-Present sid start 0 _))

    created_result-Present :
        (b : Bool) (o : Option CreateSessionResult)
        → Present o
        → Present (created_result service b o)
    unfolding created_result
    created_result-Present b none p = p
    created_result-Present b (some c) p = tt

    resolve_new-Present :
        (b : Bool) → Ends (Left n) (resolve_new service fuel b) (λ o w. Present o) AnyOf
    unfolding resolve_new
    resolve_new-Present b =
        Ends-bind _ _ (λ o w. Present o) create_session-Present
          (λ c. Ends-pure _ (λ w p. created_result-Present b c p))

    after_existing-Present :
        (sid : String) (r : Runner) (h : Health)
        → Ends (Left n) (after_existing service fuel sid r h) (λ o w. Present o) AnyOf
    unfolding after_existing
    after_existing-Present sid r healthy = Ends-pure _ (λ w p. tt)
    after_existing-Present sid r stale =
        Ends-bind _ _ (λ _. Left n)
          (Ends-weaken (λ w p. p) (λ a w q. q) (λ e w q. tt) (delete_stale-Left n r))
          (λ _. resolve_new-Present true)

    resolve_existing-Present :
        (sid : String) (x : Result Runner)
        → Ends (Left n) (resolve_existing service fuel sid x) (λ o w. Present o) AnyOf
    unfolding resolve_existing
    resolve_existing-Present sid (ok r) =
        Ends-bind _ _ (λ _. Left n)
          (Ends-weaken (λ w p. p) (λ a w q. q) (λ e w q. tt)
            (check_health-Left n service.checker r refl))
          (after_existing-Present sid r)
    resolve_existing-Present sid (err e) =
        Ends-if (not (is_error runner_not_found e)) _ _ (λ _. Ends-raise _ (λ w p. tt))
          (λ _. resolve_new-Present false)

    -- With more fuel than there are runners that can be acquired, ResolveSession ends with a
    -- result or an error, whatever the health checks say. The repository's acquisition ends,
    -- one that gives a runner leaves fewer, and no other call makes more of them.
    pub resolve_session-Present :
        (sid : String) → Ends (Left n) (resolve_session service fuel sid) (λ o w. Present o) AnyOf
    unfolding resolve_session
    resolve_session-Present sid =
        Ends-if (sid == "") _ _ (λ _. resolve_new-Present false)
          (λ _.
            Ends-bind _ _ (λ _. Left n) (Ends-attempt_both _ (Ends-keeps _ (law.find_keeps n sid)))
              (resolve_existing-Present sid))
