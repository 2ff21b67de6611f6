-- ===== src/Presenter/Poll/Limit.antt =====
-- presenter/internal/poll: the number of a visitor's choices, and what a vote does to it.
use text.Mathlib.TextEquality.{starts_with_iff}
use text.Mathlib.TextPositions.{starts_with-append}
use text.Mathlib.TextLemmas.{append_assoc as text_append_assoc}
use cli_demo.Prelude.{
  ℕ, ◌+◌, String, ◌<>◌, ◌≡◌, refl, true, false, [], ◌∷◌, none, some, arith, ◌==◌, string_eq, length,
  eq_refl, ◌∙◌, Bool-cases, inl, inr,
}
use cli_demo.Prelude.Dict.{lookup, insert}
use cli_demo.Prelude.Dict.Counting.{
  IsUnique, count_keys, one_if, insert-IsUnique, count_keys-insert_new, count_keys-insert_old,
}
use cli_demo.Presenter.Poll.{
  MetaRecord, meta, ballot, Key, key_eq, Table, meta_key, ballot_key, vote_writes, choices_of,
  apply_all, apply_write,
}
use cli_demo.Presenter.Poll.SortKey.{choice_of, choice_of-ballot, has_hash}
use cli_demo.Presenter.Poll.Tally.{lookup_meta-insert}
use cli_demo.Presenter.Poll.Available.{query_items, under}
use cli_demo.Presenter.Poll.Outcomes.{my_choices, voted}

module _ (pid visitor : String) (no_hash : has_hash visitor ≡ false) where
  -- Every sort key under the visitor's prefix is a ballot's.
  choice_of-under :
      (k : Key)
      → under pid (visitor <> "#") k ≡ true
      → (c : String) × (choice_of k.connection_id ≡ some c)
  choice_of-under k h =
      let (u, e) = (starts_with_iff k.connection_id (visitor <> "#")).0 (ground arith) in
      (u, rw (← e, text_append_assoc visitor "#" u) (choice_of-ballot visitor u no_hash))

  length-choices_of :
      (t : Table)
      → length (choices_of (query_items pid (visitor <> "#") t))
        ≡ count_keys (under pid (visitor <> "#")) t
  unfolding choices_of query_items count_keys lookup
  length-choices_of [] = refl
  length-choices_of ((k, r) ∷ t) = elim (Bool-cases (under pid (visitor <> "#") k)) [
    | inl e ↦ let (c, f) = choice_of-under k e in rw e (rw f (omega (arith, length-choices_of t)))
    | inr e ↦ rw e (omega (arith, length-choices_of t))
  ]

  module _ (named : (visitor == "") ≡ false) where
    length-my_choices :
        (t : Table) → length (my_choices pid visitor t) ≡ count_keys (under pid (visitor <> "#")) t
    unfolding my_choices
    length-my_choices t = rw named (length-choices_of t)

    under-ballot_key : (c : String) → under pid (visitor <> "#") (ballot_key pid visitor c) ≡ true
    under-ballot_key c =
        rw (eq_refl pid)
          (rw (← text_append_assoc visitor "#" c) (starts_with-append (visitor <> "#") c))

    -- One ballot more is one choice more.
    pub my_choices-vote_writes :
        (choice : String) (ttl : ℕ) (m : MetaRecord) (t : Table)
        → IsUnique t
        → lookup (meta_key pid) t ≡ some (meta m)
        → voted pid visitor choice t ≡ false
        → length (my_choices pid visitor (apply_all (vote_writes pid visitor choice ttl) t))
          ≡ length (my_choices pid visitor t) + 1
    unfolding apply_all apply_write voted
    my_choices-vote_writes choice ttl m t unique e new =
        let k = ballot_key pid visitor choice in
        let t₁ = insert k (ballot ttl) t in
        let absent : lookup k t ≡ none = ground arith in
        let e₁ : lookup (meta_key pid) t₁ ≡ some (meta m) =
          lookup_meta-insert pid visitor no_hash t pid choice (ballot ttl) ∙ e in
        let p = under pid (visitor <> "#") in
        let one : one_if (p k) ≡ 1 = rw (under-ballot_key choice) in
        rw (length-my_choices (apply_all (vote_writes pid visitor choice ttl) t)) (
          rw (e₁, length-my_choices t)
            (omega (
              arith,
              one,
              count_keys-insert_old p (meta_key pid) (meta _) t₁
                  (insert-IsUnique k (ballot ttl) t unique) e₁,
              count_keys-insert_new p k (ballot ttl) t absent,
            )))
