-- ===== src/Broker/Router/Exclusive.antt =====
-- broker: which runners have a session, under any requests.
use mathlib.Core.Path.{subst}
use cli_demo.Prelude.{String, ◌≡◌, refl, sym, List, [], ◌∷◌, Option, some}
use cli_demo.Prelude.Bytes.{Bytes}
use cli_demo.Prelude.Dict.{Dict}
use cli_demo.Effect.{Result, ok, err, Eff}
use cli_demo.Effect.Keeps.{Keeps}
use cli_demo.Effect.Ends.{Ends, Post, Ends-bind, Ends-wrapping, Ends-pure}
use cli_demo.Broker.Store.{Runner, Table}
use cli_demo.Broker.Store.Invariants.{IsLawful, find_by_session_id-On}
use cli_demo.Broker.Store.Acquired.{IsRefusing}
use cli_demo.Broker.Store.Exclusive.{
  IsExclusive, IsFree, register-IsExclusive, delete-IsExclusive, acquire_idle-IsExclusive,
  delete-IsFree,
}
use cli_demo.Broker.Service.{Checker}
use cli_demo.Broker.Service.Frames.{IsFramed}
use cli_demo.Broker.Service.Exclusive.{IsAllotting, create_session-IsExclusive}
use cli_demo.Broker.Router.{
  Broker, default_session_fn, new_broker_service, with_checker, Request, serve_all, broker_router,
}
use cli_demo.Broker.Router.Frames.{serve_all-keeps}
use cli_demo.Broker.Router.Runners.{IsQuiet}

-- The 16 bytes that are read for an id make one that no runner has.
pub record IsFresh {W I : Type 0} (b : Broker W I) (table : W → Table) : Type 0 where
  pub unused : (w : W) (bs : Bytes) → (b.read_full 16 w).0 ≡ ok bs → IsFree (b.encode bs) (table w)

module _ {W I : Type 0} (b : Broker W I) (row : I → Runner) (table : W → Table)
    (law : IsLawful b.repository row table) (refusing : IsRefusing b.repository table)
    (quiet : IsQuiet b table) (fresh : IsFresh b table) where
  abbrev Exclusive : W → Type 0
  Exclusive w = IsExclusive (table w)

  same-keeps :
      {A : Type 0} (P : Table → Type 0) (m : Eff W A)
      → ((w : W) → table (m w).1 ≡ table w)
      → Keeps (λ w. P (table w)) m
  same-keeps P m e = record { at = λ w h. subst P (sym (e w)) h }

  check-keeps :
      (P : Table → Type 0) (c : Checker W) (url : String)
      → some b.checker ≡ some c
      → Keeps (λ w. P (table w)) (c.check url)
  check-keeps P c url e =
      let same : b.checker ≡ c = cc e in
      subst (λ d. Keeps (λ w. P (table w)) (d.check url)) same (same-keeps P _ (quiet.checks url))

  read_full-Ends :
      Ends Exclusive
        (b.read_full 16)
        (λ bs w. Exclusive w × IsFree (b.encode bs) (table w))
        (λ e. Exclusive)
  read_full-Ends = record { at = λ w h. go w h (b.read_full 16 w).0 refl }
    where
      go :
          (w : W)
          → Exclusive w
          → (r : Result Bytes) → (b.read_full 16 w).0 ≡ r
          → Post
              (λ bs w'. Exclusive w' × IsFree (b.encode bs) (table w'))
              (λ x. Exclusive)
              r
              (b.read_full 16 w).1
      go w h (ok bs) e =
          let same = sym (quiet.reads_bytes 16 w) in
          (subst IsExclusive same h, subst (IsFree (b.encode bs)) same (fresh.unused w bs e))
      go w h (err x) e = subst IsExclusive (sym (quiet.reads_bytes 16 w)) h

  session_fn-Ends :
      Ends Exclusive
        (default_session_fn b.read_full b.encode)
        (λ sid w. Exclusive w × IsFree sid (table w))
        (λ e. Exclusive)
  unfolding default_session_fn
  session_fn-Ends =
      Ends-bind _ _ _ (Ends-wrapping _ _ read_full-Ends) (λ bs. Ends-pure _ (λ w p. p))

  service-IsAllotting : IsAllotting (new_broker_service b (with_checker b.checker ∷ [])) table
  service-IsAllotting = record {
    creates = session_fn-Ends;
    picks = λ n P. same-keeps P _ (quiet.picks n);
    checks = check-keeps;
    acquires = acquire_idle-IsExclusive b.repository row table law refusing b.fuel;
    deletes = delete-IsFree b.repository row table law;
  }

  service-IsFramed : IsFramed (new_broker_service b (with_checker b.checker ∷ [])) Exclusive
  service-IsFramed = record {
    finds = find_by_session_id-On b.repository row table law IsExclusive;
    deletes = delete-IsExclusive b.repository row table law;
    checks = check-keeps IsExclusive;
  }

  -- Any sequence of requests to the broker's router, each of which may fail at any point,
  -- keeps the runner table exclusive: no session that has a name is the session of two
  -- runners. The bytes that are read for an id make one that no runner has; DynamoDB changes
  -- the table by committed writes only, a failed condition means that nothing was written, and
  -- no error of the client is the repository's own; marshalling keeps a runner what it is; and
  -- the sources of randomness and the health check write nothing.
  pub serve_all-IsExclusive :
      (matches : String → String → Option (Dict String String)) (reqs : List Request) (w : W)
      → IsExclusive (table w)
      → IsExclusive (table (serve_all matches (broker_router b) reqs w))
  serve_all-IsExclusive =
      serve_all-keeps b Exclusive (λ n. same-keeps IsExclusive _ (quiet.reads_bytes n))
        (register-IsExclusive b.repository row table law) service-IsFramed
        (create_session-IsExclusive _ table service-IsAllotting)
