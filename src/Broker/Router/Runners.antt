-- ===== src/Broker/Router/Runners.antt =====
-- broker: the runner table under any requests.
use mathlib.Core.Path.{subst}
use cli_demo.Prelude.{
  ℕ, String, ◌≡◌, refl, sym, false, List, [], ◌∷◌, Option, some, ◌==◌, string_eq, length,
}
use cli_demo.Prelude.Bytes.{Bytes}
use cli_demo.Prelude.Dict.{Dict}
use cli_demo.Effect.{Result, ok, err, Eff}
use cli_demo.Effect.Keeps.{Keeps, Keeps-pure, Keeps-bind, Keeps-wrapping}
use cli_demo.Effect.Ends.{Ends, Post, AnyOf, Ends-bind, Ends-wrapping, Ends-pure}
use cli_demo.Broker.Store.{Runner, Table}
use cli_demo.Broker.Store.Invariants.{IsLawful, find_by_session_id-On}
use cli_demo.Broker.Store.States.{
  IsWellFormed, register-IsWellFormed, acquire_idle-IsWellFormed, delete-IsWellFormed,
}
use cli_demo.Broker.Service.{Checker}
use cli_demo.Broker.Service.Frames.{IsFramed}
use cli_demo.Broker.Service.Creates.{IsCreating, create_session-keeps}
use cli_demo.Broker.Router.{
  Broker, default_session_fn, new_broker_service, with_checker, Request, serve_all, broker_router,
}
use cli_demo.Broker.Router.Frames.{serve_all-keeps}

-- Reading random bytes, choosing a number and checking a runner change no row; as many bytes are read
-- as were asked for, and the hexadecimal text of 16 bytes is not empty.
pub record IsQuiet {W I : Type 0} (b : Broker W I) (table : W → Table) : Type 0 where
  pub reads_bytes : (n : ℕ) (w : W) → table (b.read_full n w).1 ≡ table w
  pub picks : (n : ℕ) (w : W) → table (b.int_n n w).1 ≡ table w
  pub checks : (url : String) (w : W) → table (b.checker.check url w).1 ≡ table w
  pub bytes_length : (n : ℕ) (w : W) (bs : Bytes) → (b.read_full n w).0 ≡ ok bs → length bs ≡ n
  pub encode_named : (bs : Bytes) → length bs ≡ 16 → (b.encode bs == "") ≡ false

module _ {W I : Type 0} (b : Broker W I) (row : I → Runner) (table : W → Table)
    (law : IsLawful b.repository row table) (quiet : IsQuiet b table) where
  abbrev WellFormed : W → Type 0
  WellFormed w = IsWellFormed (table w)

  same-WellFormed :
      {A : Type 0} (m : Eff W A) → ((w : W) → table (m w).1 ≡ table w) → Keeps WellFormed m
  same-WellFormed m e = record { at = λ w h. subst IsWellFormed (sym (e w)) h }

  read_full-length : (n : ℕ) → Ends WellFormed (b.read_full n) (λ bs w. length bs ≡ n) AnyOf
  read_full-length n = record { at = λ w h. go w (b.read_full n w).0 refl }
    where
      go :
          (w : W) (r : Result Bytes)
          → (b.read_full n w).0 ≡ r
          → Post (λ bs w'. length bs ≡ n) AnyOf r (b.read_full n w).1
      go w (ok bs) e = quiet.bytes_length n w bs e
      go w (err x) e = tt

  check-WellFormed :
      (c : Checker W) (url : String) → some b.checker ≡ some c → Keeps WellFormed (c.check url)
  check-WellFormed c url e =
      let same : b.checker ≡ c = cc e in
      subst (λ d. Keeps WellFormed (d.check url)) same (same-WellFormed _ (quiet.checks url))

  session_fn-WellFormed : Keeps WellFormed (default_session_fn b.read_full b.encode)
  unfolding default_session_fn
  session_fn-WellFormed =
      Keeps-bind _ _ (Keeps-wrapping _ _ (same-WellFormed _ (quiet.reads_bytes 16)))
        (λ bs. Keeps-pure _)

  session_fn-named :
      Ends WellFormed (default_session_fn b.read_full b.encode) (λ sid w. (sid == "") ≡ false) AnyOf
  unfolding default_session_fn
  session_fn-named =
      Ends-bind _ _ (λ bs w. length bs ≡ 16) (Ends-wrapping _ _ (read_full-length 16))
        (λ bs. Ends-pure _ (λ w l. quiet.encode_named bs l))

  service-IsFramed : IsFramed (new_broker_service b (with_checker b.checker ∷ [])) WellFormed
  service-IsFramed = record {
    finds = find_by_session_id-On b.repository row table law IsWellFormed;
    deletes = delete-IsWellFormed b.repository row table law;
    checks = check-WellFormed;
  }

  service-IsCreating :
      IsCreating
        (new_broker_service b (with_checker b.checker ∷ []))
        (λ sid. (sid == "") ≡ false)
        WellFormed
  service-IsCreating = record {
    acquires = λ sid bucket named.
        acquire_idle-IsWellFormed b.repository row table law b.fuel sid bucket named;
    creates = session_fn-WellFormed;
    names = session_fn-named;
    picks = λ n. same-WellFormed _ (quiet.picks n);
  }

  module _ (matches : String → String → Option (Dict String String)) where
    -- Any sequence of requests to the broker's router, each of which may fail at any point,
    -- keeps the runner table well formed: every row is under its own runner id, and is idle
    -- exactly if it is not busy. DynamoDB changes the table by committed writes only, a
    -- bucket has a name that is not empty, marshalling keeps a runner what it is, the
    -- sources of randomness and the health check write nothing, as many bytes are read as
    -- were asked for, and the hexadecimal text of 16 bytes is not empty.
    pub serve_all-IsWellFormed :
        (reqs : List Request) (w : W)
        → IsWellFormed (table w)
        → IsWellFormed (table (serve_all matches (broker_router b) reqs w))
    serve_all-IsWellFormed =
        serve_all-keeps b WellFormed (λ n. same-WellFormed _ (quiet.reads_bytes n))
          (register-IsWellFormed b.repository row table law) service-IsFramed
          (create_session-keeps _ _ WellFormed service-IsFramed service-IsCreating) matches
