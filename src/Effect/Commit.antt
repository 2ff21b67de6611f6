-- ===== src/Effect/Commit.antt =====
-- A write request to a database that is all or nothing: it may be committed and its answer be lost; a
-- refused one has an error and no effect.
use mathlib.Core.Path.{subst}
use cli_demo.Prelude.{◌≡◌, sym, Bool, true}
use cli_demo.GoError.{Error}
use cli_demo.Effect.{Result, err}

-- From contents `t`, a request that is `accepted` there and would leave `applied` left `t'` and
-- answered `r`.
pub data Commit {T : Type 0} (t t' : T) (accepted : Bool) (applied : T) (r : Result (Unit {0}))
    : Type 0 where
  committed : accepted ≡ true → t' ≡ applied → Commit t t' accepted applied r
  refused : (e : Error) → r ≡ err e → t' ≡ t → Commit t t' accepted applied r

-- Whatever holds before and after a committed request holds after any request.
pub Commit-keeps :
    {T : Type 0} (P : T → Type 0) {t t' : T} {accepted : Bool} {applied : T} {r : Result (Unit {0})}
    → (accepted ≡ true → P applied)
    → P t
    → Commit t t' accepted applied r
    → P t'
Commit-keeps P step h (committed held e) = subst P (sym e) (step held)
Commit-keeps P step h (refused e r same) = subst P (sym same) h
