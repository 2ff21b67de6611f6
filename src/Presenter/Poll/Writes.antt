-- ===== src/Presenter/Poll/Writes.antt =====
-- presenter/internal/poll: the transactions of the poll store on a table that is tallied.
use cli_demo.Prelude.{
  ℕ, ◌+◌, String, ◌≡◌, true, false, ◌&&◌, List, [], ◌∷◌, Option, none, some, arith, eq_iff, ◌==◌,
  string_eq, ap, sym, ◌∙◌, refl, eq_refl,
}
use cli_demo.Prelude.Int.{ℤ, pos, ◌+ℤ◌, ◌-ℤ◌}
use cli_demo.Prelude.Dict.{Dict, lookup, without, insert, lookup-insert, lookup-without}
use cli_demo.Prelude.Dict.Counting.{insert-IsUnique, without-IsUnique, one_if}
use cli_demo.Presenter.Poll.Rows.{
  MetaRecord, Row, meta, ballot, key_eq, Table, tally, act, act_all, plus_one, minus_one, all_hold,
  holds, holds_at, put, attribute_exists, attribute_not_exists, apply_write, apply_all,
}
use cli_demo.Presenter.Poll.SortKey.{has_hash}
use cli_demo.Presenter.Poll.{
  meta_key, ballot_key, vote_writes, unvote_writes, switch_writes, init_votes,
}
use cli_demo.Presenter.Poll.Tally.{
  IsTallied, ballots, ballots-insert, ballots-without, update-IsTallied, has_votes-meta,
  tally-insert, ballots-insert_meta, change-IsTallied, lookup_meta-insert, lookup_meta-without,
  tally-plus_one, tally-minus_one,
}

-- The counters of the three update expressions, where they were exact for a choice.
counted_plus :
    (pid a c : String) (v : Dict String ℤ) (n : ℕ)
    → tally c v ≡ pos n
    → tally c (act_all (plus_one a ∷ []) v) ≡ pos (one_if (pid == pid && a == c) + n)
unfolding act_all ◌+ℤ◌
counted_plus pid a c v n h = ground (arith, tally-plus_one a c v, eq_iff a c, eq_refl pid)

counted_minus :
    (pid a c : String) (v : Dict String ℤ) (n : ℕ)
    → tally c v ≡ pos (n + one_if (pid == pid && a == c))
    → tally c (act_all (minus_one a ∷ []) v) ≡ pos n
unfolding act_all ◌-ℤ◌
counted_minus pid a c v n h = ground (arith, tally-minus_one a c v, eq_iff a c, eq_refl pid)

counted_both :
    (pid a b c : String) (v : Dict String ℤ) (n : ℕ)
    → tally c v ≡ pos (n + one_if (pid == pid && a == c))
    → tally c (act_all (minus_one a ∷ plus_one b ∷ []) v) ≡ pos (one_if (pid == pid && b == c) + n)
unfolding act_all
counted_both pid a b c v n h =
    counted_plus pid b c (act (minus_one a) v) n (unfold act_all in counted_minus pid a c v n h)

present-row : (o : Option Row) → holds_at attribute_exists o ≡ true → (r : Row) × (o ≡ some r)
present-row none h = absurd (cc h)
present-row (some r) h = (r, refl)

module _ (pid visitor : String) (no_hash : has_hash visitor ≡ false) {t : Table}
    (h : IsTallied t) where
  -- Vote: one ballot more, and its counter.
  pub vote_writes-IsTallied :
      (choice : String) (ttl : ℕ)
      → all_hold t (vote_writes pid visitor choice ttl) ≡ true
      → IsTallied (apply_all (vote_writes pid visitor choice ttl) t)
  unfolding all_hold holds apply_all apply_write
  vote_writes-IsTallied choice ttl held =
      let k = ballot_key pid visitor choice in
      let t₁ = insert k (ballot ttl) t in
      let absent : lookup k t ≡ none = ground arith in
      let (m, e) = has_votes-meta (lookup (meta_key pid) t) (ground arith) in
      let m' : MetaRecord = record m { votes = act_all (plus_one choice ∷ []) m.votes } in
      let metas = λ (p : String). lookup_meta-insert pid visitor no_hash t p choice (ballot ttl) in
      let e₁ : lookup (meta_key pid) t₁ ≡ some (meta m) = metas pid ∙ e in
      let more = λ (p c : String). ballots-insert pid visitor no_hash t choice ttl p c absent in
      rw e₁ (
        update-IsTallied pid m' t₁ h (insert-IsUnique k (ballot ttl) t h.unique) metas e
          (λ p c diff. ground (arith, more p c))
          (λ c.
            counted_plus pid choice c m.votes (ballots pid c t) (h.tallied pid m e c)
            ∙ ap pos (sym (more pid c))))

  -- Unvote: one ballot less, and its counter.
  pub unvote_writes-IsTallied :
      (choice : String)
      → all_hold t (unvote_writes pid visitor choice) ≡ true
      → IsTallied (apply_all (unvote_writes pid visitor choice) t)
  unfolding all_hold holds apply_all apply_write
  unvote_writes-IsTallied choice held =
      let k = ballot_key pid visitor choice in
      let t₁ = without k t in
      let (r, present) = present-row (lookup k t) (ground arith) in
      let (m, e) = has_votes-meta (lookup (meta_key pid) t) (ground arith) in
      let m' : MetaRecord = record m { votes = act_all (minus_one choice ∷ []) m.votes } in
      let metas = λ (p : String). lookup_meta-without pid visitor no_hash t p choice in
      let e₁ : lookup (meta_key pid) t₁ ≡ some (meta m) = metas pid ∙ e in
      let less =
        λ (p c : String). ballots-without pid visitor no_hash t choice p c h.unique present in
      rw e₁ (
        update-IsTallied pid m' t₁ h (without-IsUnique k t h.unique) metas e
          (λ p c diff. ground (arith, less p c))
          (λ c.
            counted_minus pid choice c m.votes (ballots pid c t₁)
              (h.tallied pid m e c ∙ ap pos (less pid c))))

  -- Switch: one ballot replaced, and both counters.
  pub switch_writes-IsTallied :
      (from to : String) (ttl : ℕ)
      → all_hold t (switch_writes pid visitor from to ttl) ≡ true
      → IsTallied (apply_all (switch_writes pid visitor from to ttl) t)
  unfolding all_hold holds apply_all apply_write
  switch_writes-IsTallied from to ttl held =
      let k = ballot_key pid visitor from in
      let k' = ballot_key pid visitor to in
      let t₁ = without k t in
      let t₂ = insert k' (ballot ttl) t₁ in
      let (r, present) = present-row (lookup k t) (ground arith) in
      let absent : lookup k' t₁ ≡ none = ground (arith, lookup-without k k' t) in
      let (m, e) = has_votes-meta (lookup (meta_key pid) t) (ground arith) in
      let m' : MetaRecord = record m {
        votes = act_all (minus_one from ∷ plus_one to ∷ []) m.votes;
      } in
      let metas = λ (p : String).
        lookup_meta-insert pid visitor no_hash t₁ p to (ballot ttl)
        ∙ lookup_meta-without pid visitor no_hash t p from in
      let e₁ : lookup (meta_key pid) t₂ ≡ some (meta m) = metas pid ∙ e in
      let less =
        λ (p c : String). ballots-without pid visitor no_hash t from p c h.unique present in
      let more = λ (p c : String). ballots-insert pid visitor no_hash t₁ to ttl p c absent in
      rw e₁ (
        update-IsTallied pid m' t₂ h
          (insert-IsUnique k' (ballot ttl) t₁ (without-IsUnique k t h.unique)) metas e
          (λ p c diff. ground (arith, less p c, more p c))
          (λ c.
            counted_both pid from to c m.votes (ballots pid c t₁)
              (h.tallied pid m e c ∙ ap pos (less pid c))
            ∙ ap pos (sym (more pid c))))

tally-init_votes : (options : List String) (c : String) → tally c (init_votes options) ≡ pos 0
unfolding init_votes
tally-init_votes [] c = unfold tally lookup in refl
tally-init_votes (o ∷ os) c =
    ground (arith, tally-insert o c (pos 0) (init_votes os), tally-init_votes os c)

-- Opening: a META record with every counter at zero, where there was none.
pub open_writes-IsTallied :
    (pid : String) (m : MetaRecord) (options : List String) {t : Table}
    → IsTallied t
    → m.votes ≡ init_votes options
    → all_hold t (put (meta_key pid) (meta m) attribute_not_exists ∷ []) ≡ true
    → IsTallied (apply_all (put (meta_key pid) (meta m) attribute_not_exists ∷ []) t)
unfolding all_hold holds apply_all apply_write
open_writes-IsTallied pid m options {t} h start held =
    change-IsTallied pid m h (insert-IsUnique (meta_key pid) (meta m) t h.unique)
      (λ p. ground (arith, lookup-insert (meta_key pid) (meta_key p) (meta m) t))
      (λ p c diff. same_count p c)
      (λ c.
        ap (tally c) start
        ∙ tally-init_votes options c
        ∙ ap pos (sym (same_count pid c ∙ h.closed pid absent c)))
  where
    absent : lookup (meta_key pid) t ≡ none
    absent = ground arith

    same_count : (p c : String) → ballots p c (insert (meta_key pid) (meta m) t) ≡ ballots p c t
    same_count p c = ballots-insert_meta pid m t p c absent
