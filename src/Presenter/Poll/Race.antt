-- ===== src/Presenter/Poll/Race.antt =====
-- presenter/internal/poll/vote.go: the limit on a visitor's choices, at the level of single and of
-- interleaved calls.
use cli_demo.Prelude.{
  ℕ, ◌+◌, String, ◌<>◌, ◌≡◌, Bool-cases, inl, inr, refl, true, false, ◌==◌, string_eq, some, [],
  ◌∷◌, arith, length, eq_iff, eq_refl, ◌∙◌, sym, ap,
}
use cli_demo.Prelude.Int.{pos, ◌≤ℤ◌, leb_ℤ}
use cli_demo.Prelude.Dict.{lookup, insert, lookup-insert}
use cli_demo.Prelude.Dict.Counting.{IsUnique, insert-IsUnique}
use cli_demo.Effect.{ok, Eff, ◌>>◌}
use cli_demo.Effect.Answers.{Answers, Answers-bind, Answers-eq}
use cli_demo.Presenter.Poll.{
  Store, MetaRecord, meta, ballot, key_eq, Table, meta_key, ballot_key, vote_writes, contains,
  apply_all, apply_write, may_vote, cast, vote, ttl_duration, act_all, plus_one,
}
use cli_demo.Presenter.Poll.SortKey.{choice_of, choice_of-ballot, has_hash}
use cli_demo.Presenter.Poll.Available.{IsAvailable}
use cli_demo.Presenter.Poll.Outcomes.{
  my_choices, voted, vote_check, vote_answer, vote-Answers, may_vote-Answers, cast-Answers,
}
use cli_demo.Presenter.Poll.Limit.{my_choices-vote_writes}
use cli_demo.Presenter.Poll.Tally.{lookup_meta-insert, ballot-ne-meta}

-- What a successful answer says of the table before.
vote_answer-ok :
    (m : MetaRecord) (pid visitor choice : String) (t : Table)
    → vote_answer m pid visitor choice t ≡ ok tt
    → (voted pid visitor choice t ≡ false)
      × (leb_ℤ m.max_choices (pos (length (my_choices pid visitor t))) ≡ false)
unfolding vote_check
vote_answer-ok m pid visitor choice t h = ground arith

-- Ballots for two choices have two keys.
ballots_differ :
    (visitor a b : String)
    → has_hash visitor ≡ false
    → (a == b) ≡ false
    → (visitor <> "#" <> a == visitor <> "#" <> b) ≡ false
ballots_differ v a b no_hash differ = elim (Bool-cases (v <> "#" <> a == v <> "#" <> b)) [
  | inl e ↦
      let p = ap choice_of ((eq_iff (v <> "#" <> a) (v <> "#" <> b)).0 e) in
      let q : some a ≡ some b =
        sym (choice_of-ballot v a no_hash) ∙ p ∙ choice_of-ballot v b no_hash in
      absurd (ground (arith, eq_iff a b))
  | inr e ↦ e
]

-- The table after one ballot of the visitor is written.
module _ (pid visitor : String) (m : MetaRecord) (t : Table)
    (open_poll : lookup (meta_key pid) t ≡ some (meta m)) (a : String) (ttl : ℕ)
    (no_hash : has_hash visitor ≡ false) where
  open_after :
      lookup (meta_key pid) (insert (ballot_key pid visitor a) (ballot ttl) t) ≡ some (meta m)
  open_after = lookup_meta-insert pid visitor no_hash t pid a (ballot ttl) ∙ open_poll

  abbrev voted_meta : MetaRecord
  voted_meta = record m { votes = act_all (plus_one a ∷ []) m.votes }

  after_vote :
      apply_all (vote_writes pid visitor a ttl) t
      ≡ insert (meta_key pid) (meta voted_meta) (insert (ballot_key pid visitor a) (ballot ttl) t)
  unfolding apply_all apply_write
  after_vote = rw open_after

  meta_after :
      lookup (meta_key pid) (apply_all (vote_writes pid visitor a ttl) t) ≡ some (meta voted_meta)
  meta_after =
      rw (after_vote, lookup-insert (meta_key pid) (meta_key pid)) (ground (arith, eq_refl pid))

  IsUnique-after : IsUnique t → IsUnique (apply_all (vote_writes pid visitor a ttl) t)
  IsUnique-after u = rw after_vote (
      insert-IsUnique (meta_key pid) (meta voted_meta) _
        (insert-IsUnique (ballot_key pid visitor a) (ballot ttl) t u))

  voted_after :
      (b : String)
      → (a == b) ≡ false
      → voted pid visitor b (apply_all (vote_writes pid visitor a ttl) t) ≡ voted pid visitor b t
  unfolding voted
  voted_after b differ = rw after_vote (
      rw
        (
          lookup-insert (meta_key pid) (ballot_key pid visitor b),
          lookup-insert (ballot_key pid visitor a) (ballot_key pid visitor b),
        )
        (ground (
          arith,
          eq_iff "META" (ballot_key pid visitor b).connection_id,
          eq_iff (ballot_key pid visitor b).connection_id "META",
          ballot-ne-meta visitor b no_hash,
          ballots_differ visitor a b no_hash differ,
        )))

-- The transaction of Vote, where the visitor has no such ballot yet.
cast_ok :
    {W : Type 0} (st : Store W) (table : W → Table) (law : IsAvailable st table) (pid : String)
    (m : MetaRecord) (t : Table)
    → lookup (meta_key pid) t ≡ some (meta m)
    → (visitor choice : String) → voted pid visitor choice t ≡ false
    → Answers table
        (cast st pid visitor choice)
        t
        (ok tt)
        (apply_all (vote_writes pid visitor choice (law.clock + ttl_duration)) t)
cast_ok st table law pid m t open_poll visitor choice new =
    Answers-eq (cast-Answers st table law pid m t open_poll visitor choice) (rw new) (rw new)

-- Two Vote calls of one visitor, interleaved: both check, then both write.
abbrev pub interleaved :
    {W : Type 0} → Store W → String → String → String → String → Eff W (Unit {0})
interleaved st pid visitor a b = do
  may_vote st pid visitor a
  may_vote st pid visitor b
  cast st pid visitor a
  cast st pid visitor b

module _ {W : Type 0} (st : Store W) (table : W → Table) (law : IsAvailable st table)
    (pid visitor : String) (no_hash : has_hash visitor ≡ false) (named : (visitor == "") ≡ false)
    (m : MetaRecord) (w : W) (unique : IsUnique (table w))
    (open_poll : lookup (meta_key pid) (table w) ≡ some (meta m)) where
  -- After a Vote that succeeds, with no other call between its checks and its transaction, the
  -- visitor has at most the poll's maximum of choices. DynamoDB is available, its reads are up
  -- to date, the poll is open, no key has two rows, and the visitor's id is not empty and has
  -- no `#` in it.
  pub vote-le-max_choices :
      (choice : String)
      → (vote st pid visitor choice w).0 ≡ ok tt
      → pos (length (my_choices pid visitor (table (vote st pid visitor choice w).1)))
        ≤ℤ m.max_choices
  vote-le-max_choices choice success =
      let a = vote-Answers st table law pid m (table w) open_poll visitor choice in
      let answer : vote_answer m pid visitor choice (table w) ≡ ok tt =
        sym (a.result w refl) ∙ success in
      let (new, room) = vote_answer-ok m pid visitor choice (table w) answer in
      let more =
        my_choices-vote_writes pid visitor no_hash named choice (law.clock + ttl_duration) m
          (table w) unique open_poll new in
      rw (a.after w refl, answer) (ground (arith, more))

  -- Two Vote calls of one visitor, for two new valid choices with one choice left, that both
  -- make their checks before either transaction, both succeed, and the visitor then has one
  -- choice more than the maximum. DynamoDB is available, its reads are up to date, the poll is
  -- open, no key has two rows, and the visitor's id is not empty and has no `#` in it.
  pub interleaved_exceeds :
      (a b : String)
      → contains m.options a ≡ true
      → contains m.options b ≡ true
      → (a == b) ≡ false
      → voted pid visitor a (table w) ≡ false
      → voted pid visitor b (table w) ≡ false
      → m.max_choices ≡ pos (length (my_choices pid visitor (table w)) + 1)
      → ((interleaved st pid visitor a b w).0 ≡ ok tt)
        × (pos (length (my_choices pid visitor (table (interleaved st pid visitor a b w).1)))
            ≡ pos (length (my_choices pid visitor (table w)) + 2))
  unfolding vote_check
  interleaved_exceeds a b ca cb differ va vb full =
      let t = table w in
      let ttl = law.clock + ttl_duration in
      let t₁ = apply_all (vote_writes pid visitor a ttl) t in
      let e₁ = meta_after pid visitor m t open_poll a ttl no_hash in
      let vb₁ : voted pid visitor b t₁ ≡ false =
        voted_after pid visitor m t open_poll a ttl no_hash b differ ∙ vb in
      let more = my_choices-vote_writes pid visitor no_hash named a ttl m t unique open_poll va in
      let more₁ =
        my_choices-vote_writes pid visitor no_hash named b ttl
          (voted_meta pid visitor m t open_poll a ttl no_hash) t₁
          (IsUnique-after pid visitor m t open_poll a ttl no_hash unique) e₁ vb₁ in
      let check_a : vote_check m pid visitor a t ≡ ok tt = rw (ca, full) (ground arith) in
      let check_b : vote_check m pid visitor b t ≡ ok tt = rw (cb, full) (ground arith) in
      let checks = λ (x : String). may_vote-Answers st table law pid m t open_poll visitor x in
      let run : Answers table (interleaved st pid visitor a b) t (ok tt)
          (apply_all (vote_writes pid visitor b ttl) t₁) =
        Answers-bind _ _ (ok tt) (Answers-eq (checks a) check_a refl) (
          Answers-bind _ _ (ok tt) (Answers-eq (checks b) check_b refl) (
            Answers-bind _ _ (ok tt) (cast_ok st table law pid m t open_poll visitor a va)
              (cast_ok st table law pid _ t₁ e₁ visitor b vb₁))) in
      (run.result w refl, rw (run.after w refl) (ground (arith, more, more₁)))
