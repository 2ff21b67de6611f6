-- ===== src/Tests/Router.antt =====
-- Instances of the theorems on the broker's router, over a runner table in memory.
use mathlib.Core.Path.{subst}
use cli_demo.Prelude.{
  ℕ, zero, suc, String, ◌≡◌, refl, sym, ap, ◌∙◌, Bool, true, false, ◌||◌, inl, inr, List, [], ◌∷◌,
  Option, none, some, ◌==◌, string_eq, length, if◌then◌else◌, Bool-cases, arith,
}
use cli_demo.Prelude.Bytes.{Bytes}
use cli_demo.Prelude.Dict.{Dict, lookup, beq_refl}
use cli_demo.GoError.{plain}
use cli_demo.Effect.{Result, ok, err}
use cli_demo.Broker.Store.{Runner, Table}
use cli_demo.Broker.Store.Memory.{memory, memory-IsLawful, memory-IsRefusing}
use cli_demo.Broker.Store.Exclusive.{IsExclusive, IsFree, Has}
use cli_demo.Broker.Store.States.{IsWellFormed}
use cli_demo.Broker.Router.{Broker, Request, serve_all, broker_router}
use cli_demo.Broker.Router.Runners.{IsQuiet, serve_all-IsWellFormed}
use cli_demo.Broker.Router.Exclusive.{IsFresh, serve_all-IsExclusive}

abbrev filled : ℕ → ℕ → Bytes
filled x zero = []
filled x (suc n) = x ∷ filled x n

length-filled : (x n : ℕ) → length (filled x n) ≡ n
length-filled x zero = refl
length-filled x (suc n) = ap suc (length-filled x n)

abbrev broker : Broker Table Runner
broker = record {
  repository = memory;
  checker = record { check = λ url t. (ok tt, t) };
  read_full = λ n t. (ok (filled 0 n), t);
  encode = λ bs. "00000000000000000000000000000000";
  int_n = λ n t. (ok 0, t);
  context_error = λ t. none;
  parse = λ raw. ok (record { scheme = "http"; host = raw });
  fuel = 10;
}

broker-IsQuiet : IsQuiet broker (λ t. t)
broker-IsQuiet = record {
  reads_bytes = λ n w. refl;
  picks = λ n w. refl;
  checks = λ url w. refl;
  bytes_length =
      λ n w bs e. let same : filled 0 n ≡ bs = cc e in ap length (sym same) ∙ length-filled 0 n;
  encode_named = λ bs l. refl;
}

-- A path matches its own pattern, and the last part of a longer one is its parameter.
abbrev matches : String → String → Option (Dict String String)
matches pattern path =
    if pattern == path
    then some []
    else if pattern == "/internal/runners/:runnerId"
    then (if path == "/internal/runners/r1" then some (("runnerId", "r1") ∷ []) else none)
    else none

-- Two runners register, two sessions get them, and one of them is removed.
abbrev requests : List Request
requests =
    record {
      method = "POST";
      path = "/internal/runners/register";
      cookie = err (plain "no cookie");
      body = ok (record { runner_id = "r1"; private_url = "http://10.0.0.1" });
    }
    ∷ record {
      method = "GET";
      path = "/resolve";
      cookie = err (plain "no cookie");
      body = err (plain "no body");
    }
    ∷ record {
      method = "POST";
      path = "/internal/runners/register";
      cookie = err (plain "no cookie");
      body = ok (record { runner_id = "r2"; private_url = "http://10.0.0.2" });
    }
    ∷ record {
      method = "GET";
      path = "/resolve";
      cookie = err (plain "no cookie");
      body = err (plain "no body");
    }
    ∷ record {
      method = "DELETE";
      path = "/internal/runners/r1";
      cookie = err (plain "no cookie");
      body = err (plain "no body");
    }
    ∷ []

IsWellFormed-nil : IsWellFormed []
unfolding lookup
IsWellFormed-nil = record { at_id = λ id r e. cc e }

serve_all-IsWellFormed_example : IsWellFormed (serve_all matches (broker_router broker) requests [])
serve_all-IsWellFormed_example =
    serve_all-IsWellFormed broker (λ r. r) (λ t. t) memory-IsLawful broker-IsQuiet matches requests
      [] IsWellFormed-nil

-- The runner table has the session.
abbrev uses : String → Table → Bool
uses sid [] = false
uses sid ((id, r) ∷ t) = (r.current_session_id == sid) || uses sid t

Has-uses : (sid id : String) (t : Table) → Has sid id t → uses sid t ≡ true
unfolding lookup
Has-uses sid id [] (r, e, h) = absurd (ground (arith, e))
Has-uses sid id ((j, v) ∷ t) (r, e, h) = elim (Bool-cases (j == id)) [
  | inl same ↦
      let found : some v ≡ some r = ground (arith, e, same) in
      let is : v ≡ r = cc found in
      let has : v.current_session_id ≡ sid = ap (λ (x : Runner). x.current_session_id) is ∙ h in
      ground (arith, beq_refl sid, has)
  | inr other ↦
      let found : lookup id t ≡ some r = ground (arith, e, other) in
      ground (arith, Has-uses sid id t (r, found, h))
]

uses-IsFree : (sid : String) (t : Table) → uses sid t ≡ false → IsFree sid t
uses-IsFree sid t e id h = absurd (ground (arith, e, Has-uses sid id t h))

-- Bytes for an id that is not in the table: one of two, or none.
abbrev choose : ℕ → Bool → Bool → Result Bytes
choose n false b = ok (filled 0 n)
choose n true false = ok (filled 1 n)
choose n true true = err (plain "no id is left")

abbrev named : Bytes → String
named [] = "a"
named (zero ∷ bs) = "a"
named (suc x ∷ bs) = "b"

abbrev choosing_broker : Broker Table Runner
choosing_broker = record broker {
  read_full = λ n t. (choose n (uses "a" t) (uses "b" t), t);
  encode = named;
}

choose-length : (n : ℕ) (a b : Bool) (bs : Bytes) → choose n a b ≡ ok bs → length bs ≡ n
choose-length n false b bs e =
    let same : filled 0 n ≡ bs = cc e in ap length (sym same) ∙ length-filled 0 n
choose-length n true false bs e =
    let same : filled 1 n ≡ bs = cc e in ap length (sym same) ∙ length-filled 1 n
choose-length n true true bs e = cc e

named-nonempty : (bs : Bytes) → (named bs == "") ≡ false
named-nonempty [] = refl
named-nonempty (zero ∷ bs) = refl
named-nonempty (suc x ∷ bs) = refl

choosing_broker-IsQuiet : IsQuiet choosing_broker (λ t. t)
choosing_broker-IsQuiet = record {
  reads_bytes = λ n w. refl;
  picks = λ n w. refl;
  checks = λ url w. refl;
  bytes_length = λ n w bs e. choose-length n (uses "a" w) (uses "b" w) bs e;
  encode_named = λ bs l. named-nonempty bs;
}

choose-IsFree :
    (t : Table) (a b : Bool) (bs : Bytes)
    → uses "a" t ≡ a
    → uses "b" t ≡ b
    → choose 16 a b ≡ ok bs
    → IsFree (named bs) t
choose-IsFree t false b bs ea eb e =
    let same : filled 0 16 ≡ bs = cc e in
    subst (λ x. IsFree (named x) t) same (uses-IsFree "a" t ea)
choose-IsFree t true false bs ea eb e =
    let same : filled 1 16 ≡ bs = cc e in
    subst (λ x. IsFree (named x) t) same (uses-IsFree "b" t eb)
choose-IsFree t true true bs ea eb e = cc e

choosing_broker-IsFresh : IsFresh choosing_broker (λ t. t)
choosing_broker-IsFresh = record {
  unused = λ w bs e. choose-IsFree w (uses "a" w) (uses "b" w) bs refl refl e;
}

IsExclusive-nil : IsExclusive []
unfolding lookup
IsExclusive-nil = record { same = λ sid id id' n h h'. absurd (ground (arith, h.1)) }

serve_all-IsExclusive_example :
    IsExclusive (serve_all matches (broker_router choosing_broker) requests [])
serve_all-IsExclusive_example =
    serve_all-IsExclusive choosing_broker (λ r. r) (λ t. t) memory-IsLawful memory-IsRefusing
      choosing_broker-IsQuiet choosing_broker-IsFresh matches requests [] IsExclusive-nil
