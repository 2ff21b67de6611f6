-- ===== src/Broker/Store/States.antt =====
-- broker/store: the states of the rows of the runner table, idle or busy, under the operations.
use cli_demo.Prelude.{
  ℕ, String, ◌≡◌, refl, true, false, not, Option, none, some, arith, eq_iff, eq_refl, ◌==◌,
  string_eq, Bool-cases, inl, inr, ◌∙◌, sym, ap,
}
use mathlib.Core.Path.{subst}
use mathlib.Core.Bool.{true≢false}
use cli_demo.Prelude.Dict.{lookup, insert, without, lookup-insert, lookup-without}
use cli_demo.Effect.Keeps.{Keeps}
use cli_demo.Broker.Store.{
  Runner, is_idle, is_busy, Table, create, assign, remove, accepts, apply_write, DynamoRepository,
  register, acquire_idle, delete,
}
use cli_demo.Broker.Store.Rows.{absent, assign_row, idle_row}
use cli_demo.Broker.Store.Invariants.{IsLawful, register-On, acquire_idle-On, delete-On}

-- Every row is under its own id, and idle exactly if it is not busy.
pub record IsWellFormed (t : Table) : Type 0 where
  pub at_id :
      (id : String) (r : Runner)
      → lookup id t ≡ some r
      → (r.runner_id ≡ id) × (is_idle r ≡ not (is_busy r))

insert-IsWellFormed :
    (id : String) (r : Runner) (t : Table)
    → r.runner_id ≡ id
    → is_idle r ≡ not (is_busy r)
    → IsWellFormed t
    → IsWellFormed (insert id r t)
insert-IsWellFormed id r t own sound h = record {
  at_id = λ j q p. elim (Bool-cases (id == j)) [
    | inl e ↦
        let p' : some r ≡ some q = ground (arith, lookup-insert id j r t) in
        let q' : r ≡ q = cc in
        subst (λ x. (x.runner_id ≡ j) × (is_idle x ≡ not (is_busy x))) q'
          (own ∙ (eq_iff id j).0 e, sound)
    | inr e ↦
        let p' : lookup j t ≡ some q = ground (arith, lookup-insert id j r t) in h.at_id j q p'
  ];
}

without-IsWellFormed : (id : String) (t : Table) → IsWellFormed t → IsWellFormed (without id t)
without-IsWellFormed id t h = record {
  at_id = λ j q p.
      let p' : lookup j t ≡ some q = ground (arith, lookup-without id j t) in h.at_id j q p';
}

remove-IsWellFormed :
    (id : String) (t : Table) → IsWellFormed t → IsWellFormed (apply_write (remove id) t)
unfolding apply_write
remove-IsWellFormed id t h = without-IsWellFormed id t h

create-IsWellFormed :
    (r : Runner) (t : Table)
    → r.current_session_id ≡ ""
    → (r.idle_bucket == "") ≡ false
    → IsWellFormed t
    → accepts t (create r) ≡ true
    → IsWellFormed (apply_write (create r) t)
unfolding apply_write
create-IsWellFormed r t idle named h held =
    insert-IsWellFormed r.runner_id r t refl (rw (named, idle, eq_refl "") refl) h

assign-IsWellFormed :
    (sid : String)
    → (sid == "") ≡ false
    → (id : String) (t : Table) → IsWellFormed t
    → accepts t (assign id sid) ≡ true
    → IsWellFormed (apply_write (assign id sid) t)
unfolding apply_write accepts
assign-IsWellFormed sid named id t h held = go (lookup id t) refl held
  where
    go :
        (o : Option Runner)
        → lookup id t ≡ o
        → idle_row o ≡ true
        → IsWellFormed (assign_row id sid o t)
    go none e f = absurd (ground (arith, f))
    go (some r) e f = insert-IsWellFormed id _ t (h.at_id id r e).0 (rw named refl) h

-- A write that a runner with a session survives unchanged.
create-keeps_busy :
    (id : String) (held : Runner) (r : Runner) (t : Table)
    → lookup id t ≡ some held
    → accepts t (create r) ≡ true
    → lookup id (apply_write (create r) t) ≡ some held
unfolding apply_write accepts
create-keeps_busy id held r t e free = elim (Bool-cases (r.runner_id == id)) [
  | inl same ↦
      let same' : r.runner_id ≡ id = (eq_iff r.runner_id id).0 same in
      let free' : absent (lookup id t) ≡ true =
        subst (λ j. absent (lookup j t) ≡ true) same' free in
      absurd (true≢false (sym (rw e at free')))
  | inr other ↦ ground (arith, lookup-insert r.runner_id id r t)
]

assign-keeps_busy :
    (id : String) (held : Runner) (sid : String)
    → is_idle held ≡ false
    → (j : String) (t : Table) → lookup id t ≡ some held
    → accepts t (assign j sid) ≡ true
    → lookup id (apply_write (assign j sid) t) ≡ some held
unfolding apply_write accepts
assign-keeps_busy id held sid busy j t e free = go (lookup j t) refl free
  where
    go :
        (o : Option Runner)
        → lookup j t ≡ o
        → idle_row o ≡ true
        → lookup id (assign_row j sid o t) ≡ some held
    go none f g = absurd (ground (arith, g))
    go (some r) f g = elim (Bool-cases (j == id)) [
      | inl same ↦
          let same' : j ≡ id = (eq_iff j id).0 same in
          let f' : lookup id t ≡ some r = cc (same', f) in
          let g' : some r ≡ some held = cc (f', e) in
          let g'' : r ≡ held = cc g' in absurd (true≢false (sym g ∙ ap is_idle g'' ∙ busy))
      | inr other ↦
          ground
            (arith, lookup-insert j id (record r { current_session_id = sid; idle_bucket = "" }) t)
    ]

module _ {W I : Type 0} (repo : DynamoRepository W I) (row : I → Runner) (table : W → Table)
    (law : IsLawful repo row table) where
  -- Register keeps the runner table well formed: every row is under its own runner id, and is
  -- idle exactly if it is not busy. DynamoDB changes the table by committed writes only, a
  -- bucket has a name that is not empty, and marshalling keeps a runner what it is.
  pub register-IsWellFormed :
      (id url : String) → Keeps (λ w. IsWellFormed (table w)) (register repo id url)
  register-IsWellFormed id url =
      register-On repo row table law IsWellFormed create-IsWellFormed id url

  -- AcquireIdle for a session whose id is not empty keeps the runner table well formed: every
  -- row is under its own runner id, and is idle exactly if it is not busy. DynamoDB changes
  -- the table by committed writes only.
  pub acquire_idle-IsWellFormed :
      (fuel : ℕ) (sid : String) (bucket : ℕ)
      → (sid == "") ≡ false
      → Keeps (λ w. IsWellFormed (table w)) (acquire_idle repo fuel sid bucket)
  acquire_idle-IsWellFormed fuel sid bucket named =
      acquire_idle-On repo row table law IsWellFormed sid (assign-IsWellFormed sid named) fuel
        bucket

  pub delete-IsWellFormed : (id : String) → Keeps (λ w. IsWellFormed (table w)) (delete repo id)
  delete-IsWellFormed id = delete-On repo row table law IsWellFormed id (remove-IsWellFormed id)

  -- AcquireIdle for any session never changes the row of a runner that is not idle, so a
  -- runner with a session is not handed to a second one: the request that assigns has the
  -- condition that there is an idle bucket. DynamoDB changes the table by committed writes
  -- only, and the sources of randomness write nothing.
  pub acquire_idle-keeps_busy :
      (fuel : ℕ) (sid : String) (bucket : ℕ) (id : String) (held : Runner)
      → is_idle held ≡ false
      → Keeps (λ w. lookup id (table w) ≡ some held) (acquire_idle repo fuel sid bucket)
  acquire_idle-keeps_busy fuel sid bucket id held busy =
      acquire_idle-On repo row table law (λ t. lookup id t ≡ some held) sid
        (assign-keeps_busy id held sid busy) fuel bucket

  -- Register never replaces a row that the table has, so a runner that registers again keeps
  -- its session: the request that puts the row has the condition that there is none. DynamoDB
  -- changes the table by committed writes only, and marshalling keeps a runner what it is.
  pub register-keeps_row :
      (new url id : String) (held : Runner)
      → Keeps (λ w. lookup id (table w) ≡ some held) (register repo new url)
  register-keeps_row new url id held =
      register-On repo row table law (λ t. lookup id t ≡ some held)
        (λ r t _ _ e free. create-keeps_busy id held r t e free) new url
