-- ===== src/Presenter/Poll/Distinct.antt =====
-- presenter/internal/poll: which transactions of the store have two writes on one item.
use mathlib.Core.Bool.{true≢false}
use text.Mathlib.TextLemmas.{append_cancel_left}
use cli_demo.Prelude.{
  ℕ, String, ◌<>◌, ◌≡◌, sym, ap, ◌∙◌, true, false, not, ◌==◌, string_eq, Bool-cases, inl, inr,
  eq_iff, eq_refl, arith,
}
use cli_demo.Presenter.Poll.{key_eq, meta_sk, vote_writes, unvote_writes, switch_writes}
use cli_demo.Presenter.Poll.SortKey.{has_hash, has_hash-ballot}
use cli_demo.Presenter.Poll.Available.{writes_to, distinct}

ballot-ne-meta_sk : (visitor c : String) → (visitor <> "#" <> c == meta_sk) ≡ false
unfolding has_hash
ballot-ne-meta_sk v c = elim (Bool-cases (v <> "#" <> c == meta_sk)) [
  | inl e ↦
      absurd (
        true≢false (sym (has_hash-ballot v c) ∙ ap has_hash ((eq_iff (v <> "#" <> c) meta_sk).0 e)))
  | inr e ↦ e
]

-- Two ballots of a visitor have one key exactly where the choices are the same.
ballots-beq : (visitor a b : String) → (visitor <> "#" <> a == visitor <> "#" <> b) ≡ (a == b)
ballots-beq v a b = elim (Bool-cases (a == b)) [
  | inl e ↦
      let same = (eq_iff a b).0 e in
      (eq_iff (v <> "#" <> a) (v <> "#" <> b)).1 (ap (λ c. v <> "#" <> c) same) ∙ sym e
  | inr e ↦ elim (Bool-cases (v <> "#" <> a == v <> "#" <> b)) [
    | inl f ↦
        let tails = append_cancel_left v _ _ ((eq_iff (v <> "#" <> a) (v <> "#" <> b)).0 f) in
        let same = append_cancel_left "#" a b tails in
        absurd (true≢false (sym ((eq_iff a b).1 same) ∙ e))
    | inr f ↦ f ∙ sym e
  ]
]

pub distinct-vote_writes :
    (pid visitor choice : String) (ttl : ℕ) → distinct (vote_writes pid visitor choice ttl) ≡ true
unfolding distinct writes_to
distinct-vote_writes pid visitor choice ttl = ground (arith, ballot-ne-meta_sk visitor choice)

pub distinct-unvote_writes :
    (pid visitor choice : String) → distinct (unvote_writes pid visitor choice) ≡ true
unfolding distinct writes_to
distinct-unvote_writes pid visitor choice = ground (arith, ballot-ne-meta_sk visitor choice)

pub distinct-switch_writes :
    (pid visitor from to : String) (ttl : ℕ)
    → distinct (switch_writes pid visitor from to ttl) ≡ not (from == to)
unfolding distinct writes_to
distinct-switch_writes pid visitor from to ttl = ground (
  arith,
  ballot-ne-meta_sk visitor from,
  ballot-ne-meta_sk visitor to,
  ballots-beq visitor from to,
  eq_refl pid,
)
