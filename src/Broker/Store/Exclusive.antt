-- ===== src/Broker/Store/Exclusive.antt =====
-- broker/store: which rows have a session.
use mathlib.Core.Path.{subst}
use cli_demo.Prelude.{
  ℕ, String, ◌≡◌, refl, sym, ap, ◌∙◌, true, false, ◌⊎◌, inl, inr, Option, none, some, ◌==◌,
  string_eq, Bool-cases, arith,
}
use cli_demo.Prelude.Dict.{lookup, insert, without, lookup-insert, lookup-without, beq_refl}
use text.Mathlib.TextEquality.{eq_iff}
use cli_demo.GoError.{Error, is_error, no_idle_runner}
use cli_demo.Effect.{Result, ok, err}
use cli_demo.Effect.Commit.{Commit, committed, refused}
use cli_demo.Effect.Keeps.{Keeps}
use cli_demo.Effect.Ends.{Ends, Post, Ends-weaken, Ends-wrapping}
use cli_demo.Broker.Store.Rows.{Runner, Table, create, remove, accepts, apply_write}
use cli_demo.Broker.Store.{DynamoRepository, register, acquire_idle, delete}
use cli_demo.Broker.Store.Invariants.{IsLawful, register-On, delete-On}
use cli_demo.Broker.Store.Acquired.{
  IsRefusing, Assigns, Acquires, AcquiresOrNot, acquire_idle-Acquires,
}

-- The runner `id` has the session `sid`.
abbrev pub Has : String → String → Table → Type 0
Has sid id t = (r : Runner) × (lookup id t ≡ some r) × (r.current_session_id ≡ sid)

-- No session has two runners.
pub record IsExclusive (t : Table) : Type 0 where
  pub same : (sid id id' : String) → (sid == "") ≡ false → Has sid id t → Has sid id' t → id ≡ id'

abbrev pub IsFree : String → Table → Type 0
IsFree sid t = (id : String) → ¬ (Has sid id t)

-- No runner but `id` has the session.
abbrev pub IsOnly : String → String → Table → Type 0
IsOnly sid id t = (id' : String) → Has sid id' t → id' ≡ id

Has-insert :
    (sid j k : String) (v : Runner) (t : Table)
    → Has sid j (insert k v t)
    → ((k ≡ j) × (v.current_session_id ≡ sid)) ⊎ Has sid j t
Has-insert sid j k v t h = elim (Bool-cases (k == j)) [
  | inl e ↦
      let found : some v ≡ some h.0 = ground (arith, lookup-insert k j v t, h.1, e) in
      let same : v ≡ h.0 = cc found in
      inl ((eq_iff k j).0 e, ap (λ r. r.current_session_id) same ∙ h.2)
  | inr e ↦ inr (h.0, ground (arith, lookup-insert k j v t, h.1, e), h.2)
]

Has-without :
    (sid j k : String) (t : Table) → Has sid j (without k t) → ((k == j) ≡ false) × Has sid j t
Has-without sid j k t h = elim (Bool-cases (k == j)) [
  | inl e ↦ absurd (ground (arith, lookup-without k j t, h.1, e))
  | inr e ↦ (e, (h.0, ground (arith, lookup-without k j t, h.1, e), h.2))
]

insert-IsExclusive :
    (k : String) (v : Runner) (t : Table)
    → ((sid : String) → (sid == "") ≡ false → v.current_session_id ≡ sid → IsFree sid t)
    → IsExclusive t
    → IsExclusive (insert k v t)
insert-IsExclusive k v t free x = record {
  same = λ sid id id' named h h'.
      go sid id id' named (Has-insert sid id k v t h) (Has-insert sid id' k v t h');
}
  where
    go :
        (sid id id' : String)
        → (sid == "") ≡ false
        → ((k ≡ id) × (v.current_session_id ≡ sid)) ⊎ Has sid id t
        → ((k ≡ id') × (v.current_session_id ≡ sid)) ⊎ Has sid id' t
        → id ≡ id'
    go sid id id' named (inl p) (inl q) = sym p.0 ∙ q.0
    go sid id id' named (inl p) (inr q) = absurd (free sid named p.1 id' q)
    go sid id id' named (inr p) (inl q) = absurd (free sid named q.1 id p)
    go sid id id' named (inr p) (inr q) = x.same sid id id' named p q

without-IsExclusive : (k : String) (t : Table) → IsExclusive t → IsExclusive (without k t)
without-IsExclusive k t x = record {
  same = λ sid id id' named h h'.
      x.same sid id id' named (Has-without sid id k t h).1 (Has-without sid id' k t h').1;
}

create-IsExclusive :
    (r : Runner) (t : Table)
    → r.current_session_id ≡ ""
    → IsExclusive t
    → IsExclusive (apply_write (create r) t)
unfolding apply_write
create-IsExclusive r t idle x =
    insert-IsExclusive r.runner_id r t
      (λ sid named e id h.
        let empty : "" ≡ sid = sym idle ∙ e in absurd (ground (arith, named, empty, beq_refl sid)))
      x

-- A runner given to a session that none has.
Assigns-IsExclusive :
    (sid id : String) (t t' : Table)
    → IsExclusive t
    → IsFree sid t
    → Assigns sid t id t'
    → IsExclusive t' × IsOnly sid id t'
Assigns-IsExclusive sid id t t' x free a =
    subst (λ u. IsExclusive u × IsOnly sid id u) (sym a.3)
      (
        insert-IsExclusive id _ t (λ s named e j h. free j (subst (λ q. Has q j t) (sym e) h)) x,
        (λ j h. only j (Has-insert sid j id _ t h)),
      )
  where
    only : {A : Type 0} (j : String) → ((id ≡ j) × A) ⊎ Has sid j t → j ≡ id
    only j (inl p) = sym p.0
    only j (inr h) = absurd (free j h)

-- Once the only runner of a session is removed, none has it.
without-IsFree : (sid id : String) (t : Table) → IsOnly sid id t → IsFree sid (without id t)
without-IsFree sid id t only j h =
    let p = Has-without sid j id t h in
    let e = only j p.1 in absurd (ground (arith, p.0, e, beq_refl id))

-- What an acquisition for a session that no runner has returns and leaves.
abbrev pub Acquired : String → Option Runner → Table → Type 0
Acquired sid none t = IsExclusive t
Acquired sid (some r) t = IsExclusive t × IsOnly sid r.runner_id t

abbrev pub NotAcquired : String → Error → Table → Type 0
NotAcquired sid e t = IsExclusive t × (is_error no_idle_runner e ≡ true → IsFree sid t)

module _ {W I : Type 0} (repo : DynamoRepository W I) (row : I → Runner) (table : W → Table)
    (law : IsLawful repo row table) where
  abbrev Exclusive : W → Type 0
  Exclusive w = IsExclusive (table w)

  pub register-IsExclusive : (id url : String) → Keeps Exclusive (register repo id url)
  register-IsExclusive id url =
      register-On repo row table law IsExclusive (λ r t idle _ x _. create-IsExclusive r t idle x)
        id url

  pub delete-IsExclusive : (id : String) → Keeps Exclusive (delete repo id)
  unfolding apply_write
  delete-IsExclusive id =
      delete-On repo row table law IsExclusive id (λ t x. without-IsExclusive id t x)

  module _ (refusing : IsRefusing repo table) where
    pub acquire_idle-IsExclusive :
        (fuel : ℕ) (sid : String) (bucket : ℕ)
        → Ends
            (λ w. Exclusive w × IsFree sid (table w))
            (acquire_idle repo fuel sid bucket)
            (λ o w. Acquired sid o (table w))
            (λ e w. NotAcquired sid e (table w))
    acquire_idle-IsExclusive fuel sid bucket = record {
      at = λ w p.
          (Ends-weaken (λ v e. e) (λ o v. got (table w) p o v) (λ e v. failed (table w) p e v)
              (acquire_idle-Acquires repo row table law refusing sid (table w) fuel bucket)).at
            w refl;
    }
      where
        got :
            (t : Table)
            → IsExclusive t × IsFree sid t
            → (o : Option Runner) (v : W) → Acquires sid t o (table v)
            → Acquired sid o (table v)
        got t p none v e = subst IsExclusive (sym e) p.0
        got t p (some r) v a = Assigns-IsExclusive sid r.runner_id t (table v) p.0 p.1 a.2

        failed :
            (t : Table)
            → IsExclusive t × IsFree sid t
            → (e : Error) (v : W)
            → AcquiresOrNot sid t (table v) × (is_error no_idle_runner e ≡ true → table v ≡ t)
            → NotAcquired sid e (table v)
        failed t p e v (inl s, f) =
            (subst IsExclusive (sym s) p.0, (λ n. subst (IsFree sid) (sym (f n)) p.1))
        failed t p e v (inr a, f) = (
          (Assigns-IsExclusive sid a.0 t (table v) p.0 p.1 a.1).0,
          (λ n. subst (IsFree sid) (sym (f n)) p.1),
        )

  -- Delete of the only runner of a session leaves the session to none, where it succeeds.
  pub delete-IsFree :
      (sid id : String)
      → Ends
          (λ w. Exclusive w × IsOnly sid id (table w))
          (delete repo id)
          (λ _ w. Exclusive w × IsFree sid (table w))
          (λ _ w. Exclusive w)
  unfolding delete apply_write
  delete-IsFree sid id = Ends-wrapping _ _ (record {
    at = λ w p. go w p (repo.client.delete_item id w).0 (law.dynamo.delete_item_commits id w);
  })
    where
      go :
          (w : W)
          → IsExclusive (table w) × IsOnly sid id (table w)
          → (r : Result (Unit {0}))
          → Commit
              (table w)
              (table (repo.client.delete_item id w).1)
              (accepts (table w) (remove id))
              (apply_write (remove id) (table w))
              r
          → Post
              (λ _ w. Exclusive w × IsFree sid (table w))
              (λ _ w. Exclusive w)
              r
              (repo.client.delete_item id w).1
      go w p (ok u) (committed h e) = (
        subst IsExclusive (sym e) (without-IsExclusive id (table w) p.0),
        subst (IsFree sid) (sym e) (without-IsFree sid id (table w) p.1),
      )
      go w p (ok u) (refused x r e) = absurd (ground (arith, r))
      go w p (err x) (committed h e) =
          subst IsExclusive (sym e) (without-IsExclusive id (table w) p.0)
      go w p (err x) (refused y r e) = subst IsExclusive (sym e) p.0
