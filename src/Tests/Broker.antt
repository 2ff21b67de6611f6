-- ===== src/Tests/Broker.antt =====
-- Instances of the broker's theorems, over a runner table in memory.
use mathlib.Core.Path.{subst}
use cli_demo.Prelude.{
  ℕ, zero, suc, ◌-◌, ◌<◌, ◌≤◌, String, ◌≡◌, refl, Bool, true, false, List, [], ◌∷◌, Option, none,
  some, arith, ◌==◌, ◌||◌, nat_eq, string_eq,
}
use cli_demo.Prelude.Dict.{lookup, beq_refl}
use cli_demo.GoError.{sentinel, no_idle_runner, is_error}
use cli_demo.Effect.{Result, ok, err}
use cli_demo.Effect.Keeps.{Keeps}
use cli_demo.Effect.Ends.{Ends, Post, Any, AnyOf}
use cli_demo.Broker.Store.{
  Runner, Table, register, acquire_idle, delete, find_by_session_id, bucket_count, seen,
  DynamoRepository,
}
use cli_demo.Broker.Store.Memory.{memory, memory_client, memory-IsLawful, memory-IsRefusing}
use cli_demo.Broker.Store.Termination.{untried, IsBounded, acquire_idle-Present}
use cli_demo.Broker.Store.Acquired.{Acquires, AcquiresOrNot, acquire_idle-Acquires}
use cli_demo.Broker.Store.States.{acquire_idle-keeps_busy, register-keeps_row}
use cli_demo.Broker.Service.{Repository, Checker, BrokerService, resolve_session, create_session}
use cli_demo.Broker.Service.Sessions.{Resolved, resolve_session-Resolved}
use cli_demo.Broker.Handler.{service_of, get_resolve}
use cli_demo.Broker.Handler.Routes.{IsRouted, get_resolve-IsRouted}
use cli_demo.Broker.Service.Progress.{IsFinite, Present}
use cli_demo.Broker.Service.Exhaustion.{IsSearched, create_session-no_idle}

-- A runner that session s0 has.
abbrev taken : Runner
taken = record {
  runner_id = "r0";
  current_session_id = "s0";
  idle_bucket = "";
  private_url = "http://10.0.0.2";
}

acquire_idle-keeps_busy_example :
    Keeps (λ t. lookup "r0" t ≡ some taken) (acquire_idle memory 5 "s1" 0)
acquire_idle-keeps_busy_example =
    acquire_idle-keeps_busy memory (λ r. r) (λ t. t) memory-IsLawful 5 "s1" 0 "r0" taken refl

register-keeps_row_example :
    Keeps (λ t. lookup "r0" t ≡ some taken) (register memory "r0" "http://10.0.0.3")
register-keeps_row_example =
    register-keeps_row memory (λ r. r) (λ t. t) memory-IsLawful "r0" "http://10.0.0.3" "r0" taken

abbrev repository : Repository Table
repository = record {
  find_by_session_id = find_by_session_id memory;
  register = register memory;
  acquire_idle = λ sid b. acquire_idle memory 10 sid b;
  delete = delete memory;
  bucket_count = bucket_count;
}

-- A check that every runner passes.
abbrev checker : Checker Table
checker = record { check = λ url t. (ok tt, t) }

abbrev service : BrokerService Table
service = record {
  repo = repository;
  checker = some checker;
  session_fn = λ t. (ok "s1", t);
  context_error = λ t. none;
  int_n = λ n t. (ok 0, t);
}

resolve_session-Resolved_example :
    Ends Any (resolve_session service 10 "s0") (Resolved service checker "s0") AnyOf
resolve_session-Resolved_example = resolve_session-Resolved service checker refl 10 "s0"

-- Two buckets without a runner; the world is the list of the buckets that were asked.
abbrev asked : ℕ → List ℕ → Bool
asked b [] = false
asked b (a ∷ w) = a == b || asked b w

abbrev empty_service : BrokerService (List ℕ)
empty_service = record {
  repo = record {
    find_by_session_id = λ sid w. (err (sentinel no_idle_runner), w);
    register = λ id url w. (ok tt, w);
    acquire_idle = λ sid b w. (err (sentinel no_idle_runner), b ∷ w);
    delete = λ id w. (ok tt, w);
    bucket_count = 2;
  };
  checker = none;
  session_fn = λ w. (ok "s1", w);
  context_error = λ w. none;
  int_n = λ n w. (ok (n - 1), w);
}

or_true : (b : Bool) → (b || true) ≡ true
or_true true = refl
or_true false = refl

empty_service-IsSearched : IsSearched empty_service (λ b w. asked b w ≡ true)
empty_service-IsSearched = record {
  acquire_says = λ sid b. record { at = λ w p e. rw (beq_refl b) refl };
  acquire_keeps = λ b sid a. record { at = λ w h. rw h (or_true (a == b)) };
  delete_keeps = λ b id. record { at = λ w h. h };
  check_keeps = λ b c e url. absurd (cc e);
  delete_other = λ id. record { at = λ w p. tt };
  context_error_other = λ w e f. absurd (cc f);
  session_fn_other = record { at = λ w p. tt };
  some_bucket = omega arith;
  int_n_range = λ n positive. record { at = λ w p. omega (arith, positive) };
}

create_session-no_idle_example :
    Ends Any
      (create_session empty_service 3)
      AnyOf
      (λ e w. is_error no_idle_runner e ≡ true → (b : ℕ) → b < 2 → asked b w ≡ true)
create_session-no_idle_example =
    create_session-no_idle empty_service (λ b w. asked b w ≡ true) empty_service-IsSearched 3

-- The world is the number of the runners that are left, and every check fails.
abbrev drain : ℕ → Result (Option Runner) × ℕ
drain zero = (err (sentinel no_idle_runner), zero)
drain (suc n) = (ok (some taken), n)

abbrev failing : Checker ℕ
failing = record { check = λ url n. (err (sentinel no_idle_runner), n) }

abbrev draining_service : BrokerService ℕ
draining_service = record {
  repo = record {
    find_by_session_id = λ sid n. (ok taken, n);
    register = λ id url n. (ok tt, n);
    acquire_idle = λ sid b. drain;
    delete = λ id n. (ok tt, n);
    bucket_count = 4;
  };
  checker = some failing;
  session_fn = λ n. (ok "s1", n);
  context_error = λ n. none;
  int_n = λ k n. (ok 0, n);
}

draining_service-IsFinite : IsFinite draining_service (λ n. n)
draining_service-IsFinite = record {
  acquire_uses = λ sid b n. record { at = λ w p. go n w p };
  find_keeps = λ n sid. record { at = λ w p. p };
  delete_keeps = λ n id. record { at = λ w p. p };
  check_keeps = λ n c e url. record { at = λ w p. go_check c e url w n p };
  session_fn_keeps = λ n. record { at = λ w p. p };
  int_n_keeps = λ n k. record { at = λ w p. p };
}
  where
    go :
        (n w : ℕ) → w ≤ n → Post (λ o m. Present o × (m < n)) (λ e m. m ≤ n) (drain w).0 (drain w).1
    go n zero p = p
    go n (suc w) p = (tt, p)

    go_check :
        (c : Checker ℕ)
        → draining_service.checker ≡ some c
        → (url : String) (w n : ℕ) → w ≤ n
        → (c.check url w).1 ≤ n
    go_check c e url w n p =
        let same : failing ≡ c = cc e in subst (λ (d : Checker ℕ). (d.check url w).1 ≤ n) same p

get_resolve-IsRouted_example :
    Ends
      (λ n. n ≤ 9)
      (get_resolve (service_of draining_service 10) "req-1" (ok "s0"))
      (IsRouted draining_service failing)
      (λ e n. ⊥)
get_resolve-IsRouted_example =
    get_resolve-IsRouted draining_service failing (λ n. n) draining_service-IsFinite refl 10 9
      (omega arith) "req-1" (ok "s0")

-- A runner that is idle.
abbrev idle_runner : Runner
idle_runner = record {
  runner_id = "r1";
  current_session_id = "";
  idle_bucket = "bucket-0";
  private_url = "http://10.0.0.4";
}

abbrev one_idle : Table
one_idle = ("r1", idle_runner) ∷ []

acquire_idle-Acquires_example :
    Ends
      (λ t. t ≡ one_idle)
      (acquire_idle memory 5 "s1" 0)
      (λ o t. Acquires "s1" one_idle o t)
      (λ e t. AcquiresOrNot "s1" one_idle t × (is_error no_idle_runner e ≡ true → t ≡ one_idle))
acquire_idle-Acquires_example =
    acquire_idle-Acquires memory (λ r. r) (λ t. t) memory-IsLawful memory-IsRefusing "s1" one_idle 5
      0

-- An index that always answers with the same runner.
abbrev stale_index : DynamoRepository Table Runner
stale_index = record memory {
  client = record memory_client { query_idle = λ b n t. (ok (idle_runner ∷ []), t) };
}

stale_index-IsBounded : IsBounded stale_index ("r1" ∷ [])
unfolding seen
stale_index-IsBounded = record {
  known = λ b n. record { at = λ w p. ((λ r e. known_id r e), tt) };
  shuffle_keeps = λ rs h. record { at = λ w p. h };
}
  where
    known_id :
        (r : Runner)
        → ◌≡◌ {A = Result Runner} (ok idle_runner) (ok r)
        → seen ("r1" ∷ []) r.runner_id ≡ true
    known_id r e =
        let same : idle_runner ≡ r = cc e in
        subst (λ (x : Runner). seen ("r1" ∷ []) x.runner_id ≡ true) same refl

acquire_idle-Present_example : Ends Any (acquire_idle stale_index 2 "s1" 0) (λ o t. Present o) AnyOf
unfolding untried seen
acquire_idle-Present_example =
    acquire_idle-Present stale_index ("r1" ∷ []) stale_index-IsBounded "s1" 2 0 (omega arith)
