-- ===== src/Broker/Service/Exhaustion.antt =====
-- broker/service/service.go: what it means that no runner is found.
use mathlib.Core.Bool.{true≢false}
use mathlib.Core.Path.{subst}
use native.Mathlib.Nat.{mod-eq_of_lt, add-mod_right}
use cli_demo.Prelude.{
  ℕ, zero, suc, ◌+◌, ◌-◌, ◌%◌, ◌≤◌, ◌<◌, String, ◌≡◌, refl, sym, ap, ◌∙◌, ◌⊎◌, inl, inr, true,
  false, Option, none, some, arith, string_eq,
}
use cli_demo.GoError.{Error, is_error, no_idle_runner}
use cli_demo.Effect.{Result, ok, err, Eff, pure, raise, attempt, ◌>>=◌}
use cli_demo.Effect.Keeps.{Keeps}
use cli_demo.Effect.Ends.{
  Ends, Post, Any, AnyOf, Ends-pure, Ends-raise, Ends-if, Ends-bind, Ends-keeps, Ends-wrapping,
  Ends-attempt, Ends-weaken, Ends-and,
}
use cli_demo.Broker.Store.{Runner}
use cli_demo.Broker.Service.{
  BrokerService, Checker, CreateSessionResult, Health, healthy, stale, Search, got, bucket_empty,
  out_of_fuel, cancelled, checked, check_health, delete_stale, after_check, after_acquire,
  search_bucket, next_bucket, search_buckets, create_session,
}

abbrev Other : {W : Type 0} → Error → W → Type 0
Other e w = is_error no_idle_runner e ≡ false

-- `NoIdle b w`: bucket `b` had no idle runner when it was asked last. An acquisition that says so
-- makes it true, and nothing that the search does makes it false. No other part has this error.
pub record IsSearched {W : Type 0} (service : BrokerService W) (NoIdle : ℕ → W → Type 0)
    : Type 0 where
  pub acquire_says :
      (sid : String) (b : ℕ)
      → Ends Any
          (service.repo.acquire_idle sid b)
          AnyOf
          (λ e w. is_error no_idle_runner e ≡ true → NoIdle b w)
  pub acquire_keeps :
      (b : ℕ) (sid : String) (a : ℕ) → Keeps (NoIdle b) (service.repo.acquire_idle sid a)
  pub delete_keeps : (b : ℕ) (id : String) → Keeps (NoIdle b) (service.repo.delete id)
  pub check_keeps :
      (b : ℕ) (c : Checker W)
      → service.checker ≡ some c
      → (url : String) → Keeps (NoIdle b) (c.check url)
  pub delete_other : (id : String) → Ends Any (service.repo.delete id) AnyOf Other
  pub context_error_other :
      (w : W) (e : Error) → service.context_error w ≡ some e → is_error no_idle_runner e ≡ false
  pub session_fn_other : Ends Any service.session_fn AnyOf Other
  -- rand.IntN gives a number below its argument
  pub some_bucket : 0 < service.repo.bucket_count
  pub int_n_range : (n : ℕ) → 0 < n → Ends Any (service.int_n n) (λ start w. start < n) Other

module _ {W : Type 0} (service : BrokerService W) (NoIdle : ℕ → W → Type 0)
    (law : IsSearched service NoIdle) where
  -- The buckets before the `i`-th of the walk were found empty.
  abbrev Before : ℕ → ℕ → W → Type 0
  Before start i w = (j : ℕ) → j < i → NoIdle ((start + j) % service.repo.bucket_count) w

  module _ (start i : ℕ) where
    abbrev Walked : W → Type 0
    Walked = Before start i

    acquire-Walked : (sid : String) (b : ℕ) → Keeps Walked (service.repo.acquire_idle sid b)
    acquire-Walked sid b = record { at = λ w h j l. (law.acquire_keeps _ sid b).at w (h j l) }

    delete-Walked : (id : String) → Keeps Walked (service.repo.delete id)
    delete-Walked id = record { at = λ w h j l. (law.delete_keeps _ id).at w (h j l) }

    delete_stale-Walked : (r : Runner) → Ends Walked (delete_stale service r) (λ _. Walked) Other
    unfolding delete_stale
    delete_stale-Walked r = Ends-wrapping _ _ (
        Ends-weaken (λ w p. p) (λ a w q. q.0) (λ e w q. q.1)
          (Ends-and _ (Ends-keeps _ (delete-Walked r.runner_id))
            (Ends-weaken (λ w p. tt) (λ a w q. q) (λ e w q. q) (law.delete_other r.runner_id))))

    Empty : ℕ → Search → W → Type 0
    Empty b (got r) w = Unit
    Empty b bucket_empty w = Walked w × NoIdle b w
    Empty b out_of_fuel w = Unit

    check_health-Walked :
        (o : Option (Checker W)) (r : Runner)
        → service.checker ≡ o
        → Ends Walked (check_health service o r) (λ h. Walked) Other
    unfolding check_health checked cancelled attempt ◌>>=◌ pure raise
    check_health-Walked none r e = record { at = λ w p. p }
    check_health-Walked (some c) r e = record {
      at = λ w p.
          go (c.check r.private_url w).0 (c.check r.private_url w).1
            (λ j l. (law.check_keeps _ c e r.private_url).at w (p j l));
    }
      where
        after_error :
            (o : Option Error) (w : W)
            → service.context_error w ≡ o
            → Walked w
            → Post (λ h. Walked) Other (cancelled service o w).0 (cancelled service o w).1
        after_error none w e p = p
        after_error (some x) w e p = law.context_error_other w x e

        go :
            (x : Result (Unit {0})) (w : W)
            → Walked w
            → Post (λ h. Walked) Other (checked service x w).0 (checked service x w).1
        go (ok u) w p = p
        go (err f) w p = after_error (service.context_error w) w refl p

    after_check-Empty :
        (b : ℕ) (h : Health) (r : Runner) (again : Eff W Search)
        → Ends Walked again (Empty b) Other
        → Ends Walked (after_check service r again h) (Empty b) Other
    unfolding after_check Empty
    after_check-Empty b healthy r again k = Ends-pure _ (λ w p. tt)
    after_check-Empty b stale r again k =
        Ends-bind _ _ (λ _. Walked) (delete_stale-Walked r) (λ _. k)

    after_acquire-Empty :
        (b : ℕ) (again : Eff W Search) (x : Result (Option Runner))
        → Ends Walked again (Empty b) Other
        → Ends
            (Post
              (λ _. Walked)
              (λ e w. Walked w × (is_error no_idle_runner e ≡ true → NoIdle b w))
              x)
            (after_acquire service again x)
            (Empty b)
            Other
    unfolding after_acquire Empty
    after_acquire-Empty b again (err e) k =
        Ends-if (is_error no_idle_runner e) _ _ (λ says. Ends-pure _ (λ w p. (p.0, p.1 says)))
          (λ denied. Ends-raise _ (λ w p. denied))
    after_acquire-Empty b again (ok none) k = Ends-pure _ (λ w p. tt)
    after_acquire-Empty b again (ok (some r)) k =
        Ends-bind _ _ (λ h. Walked) (check_health-Walked service.checker r refl)
          (λ h. after_check-Empty b h r again k)

    search_bucket-Empty :
        (fuel : ℕ) (sid : String) (b : ℕ)
        → Ends Walked (search_bucket service fuel sid b) (Empty b) Other
    unfolding search_bucket Empty
    search_bucket-Empty zero sid b = Ends-pure _ (λ w p. tt)
    search_bucket-Empty (suc fuel) sid b =
        Ends-bind _ _
          (Post (λ _. Walked) (λ e w. Walked w × (is_error no_idle_runner e ≡ true → NoIdle b w)))
          (Ends-attempt _ (
            Ends-weaken (λ w p. p) (λ a w q. q.0) (λ e w q. q)
              (Ends-and _ (Ends-keeps _ (acquire-Walked sid b))
                (Ends-weaken (λ w p. tt) (λ a w q. q) (λ e w q. q) (law.acquire_says sid b)))))
          (λ x. after_acquire-Empty b _ x (search_bucket-Empty fuel sid b))

  abbrev AllBefore : ℕ → ℕ → Error → W → Type 0
  AllBefore start i e w = is_error no_idle_runner e ≡ true → Before start i w

  one_more :
      (start i : ℕ) (w : W)
      → Before start i w
      → NoIdle ((start + i) % service.repo.bucket_count) w
      → Before start (suc i) w
  one_more start i w p q j l =
      let c : (j < i) ⊎ (j ≡ i) = ground arith in
      elim c [
        | inl before ↦ p j before
        | inr last ↦ subst (λ k. NoIdle ((start + k) % service.repo.bucket_count) w) (sym last) q
      ]

  next_bucket-AllBefore :
      (start i total : ℕ) (sid : String) (rest : Eff W (Option CreateSessionResult)) (s : Search)
      → Ends (Before start (suc i)) rest AnyOf (AllBefore start total)
      → Ends
          (Empty start i ((start + i) % service.repo.bucket_count) s)
          (next_bucket service sid rest s)
          AnyOf
          (AllBefore start total)
  unfolding next_bucket Empty
  next_bucket-AllBefore start i total sid rest (got r) k = Ends-pure _ (λ w p. tt)
  next_bucket-AllBefore start i total sid rest bucket_empty k =
      Ends-weaken (λ w p j l. one_more start i w p.0 p.1 j l) (λ a w q. q) (λ e w q. q) k
  next_bucket-AllBefore start i total sid rest out_of_fuel k = Ends-pure _ (λ w p. tt)

  search_buckets-AllBefore :
      (fuel : ℕ) (sid : String) (start i n total : ℕ)
      → i + n ≡ total
      → Ends
          (Before start i)
          (search_buckets service fuel sid start i n)
          AnyOf
          (AllBefore start total)
  unfolding search_buckets
  search_buckets-AllBefore fuel sid start i zero total e =
      let e' : i ≡ total = omega arith in Ends-raise _ (λ w p _. subst (λ k. Before start k w) e' p)
  search_buckets-AllBefore fuel sid start i (suc n) total e =
      Ends-bind _ _ (Empty start i _)
        (Ends-weaken (λ w p. p) (λ a w q. q) (λ x w q says. absurd (true≢false (sym says ∙ q)))
          (search_bucket-Empty start i fuel sid _))
        (λ s.
          let e' : suc i + n ≡ total = omega arith in
          next_bucket-AllBefore start i total sid _ s
            (search_buckets-AllBefore fuel sid start (suc i) n total e'))

  -- The walk from `start` on comes by bucket `b`.
  covered :
      (start count b : ℕ)
      → start < count
      → b < count
      → (j : ℕ) × (j < count) × ((start + j) % count ≡ b)
  covered start count b l m =
      let c : (start ≤ b) ⊎ (b < start) = ground arith in
      elim c [
        | inl up ↦
            let e : start + (b - start) ≡ b = omega arith in
            (b - start, omega arith, ap (λ k. k % count) e ∙ mod-eq_of_lt m)
        | inr down ↦
            let e : start + (b + count - start) ≡ b + count = omega arith in
            (
              b + count - start,
              omega arith,
              ap (λ k. k % count) e ∙ add-mod_right b count ∙ mod-eq_of_lt m,
            )
      ]

  nothing_below : {j : ℕ} → ¬ (j < 0)
  nothing_below l = omega arith

  -- If the search of createSession fails with the error for no idle runner, then every bucket
  -- was asked and said that it had none, whatever bucket the search began with. The
  -- repository's acquisitions say so by this error, nothing else in the search has this error
  -- or forgets the answers, and IntN gives a number below its argument.
  pub create_session-no_idle :
      (fuel : ℕ)
      → Ends Any (create_session service fuel) AnyOf (λ e w.
        is_error no_idle_runner e ≡ true → (b : ℕ) → b < service.repo.bucket_count → NoIdle b w)
  unfolding create_session
  create_session-no_idle fuel =
      Ends-bind _ _ (λ _. Any)
        (Ends-weaken (λ w p. p) (λ a w q. tt) (λ x w q says. absurd (true≢false (sym says ∙ q)))
          law.session_fn_other)
        (λ sid.
          Ends-bind _ _ (λ start w. start < service.repo.bucket_count)
            (Ends-weaken (λ w p. p) (λ a w q. q) (λ x w q says. absurd (true≢false (sym says ∙ q)))
              (law.int_n_range _ law.some_bucket))
            (λ start. walk sid start))
    where
      walk :
          (sid : String) (start : ℕ)
          → Ends
              (λ w. start < service.repo.bucket_count)
              (search_buckets service fuel sid start 0 service.repo.bucket_count)
              AnyOf
              (λ e w.
                is_error no_idle_runner e ≡ true
                → (b : ℕ) → b < service.repo.bucket_count
                → NoIdle b w)
      walk sid start = record {
        at = λ w l.
            (Ends-weaken {P = Before start 0} {P' = Before start 0} (λ w p. p) (λ a w q. q)
                (λ e w h says b m.
                  let c = covered start service.repo.bucket_count b l m in
                  subst (λ k. NoIdle k w) c.2 (h says c.0 c.1))
                (search_buckets-AllBefore fuel sid start 0 service.repo.bucket_count
                  service.repo.bucket_count (omega arith))).at
              w (λ j x. absurd (nothing_below x));
      }
