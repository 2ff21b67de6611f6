-- ===== src/Presenter/Poll/Tally.antt =====
-- The invariant of the poll_votes table: the counters of every open poll are the numbers of its
-- ballots, and a poll that is not open has none. Here: what each committed write does to it.
use cli_demo.Prelude.{
  ℕ, ◌+◌, String, ◌<>◌, ◌≡◌, refl, inl, inr, Bool, true, false, ◌&&◌, Option, none, some, arith,
  eq_iff, ◌==◌, string_eq, if◌then◌else◌, Bool-cases, ap, sym, ◌∙◌,
}
use cli_demo.Prelude.Int.{ℤ, pos, ◌+ℤ◌, ◌-ℤ◌}
use cli_demo.Prelude.Dict.{Dict, lookup, without, insert, lookup-insert, lookup-without}
use cli_demo.Prelude.Dict.Counting.{
  IsUnique, count_keys, one_if, insert-IsUnique, count_keys-insert_new, count_keys-insert_old,
  count_keys-without,
}
use cli_demo.Presenter.Poll.Rows.{
  MetaRecord, Row, meta, ballot, Key, key_eq, Table, tally, act, plus_one, minus_one, has_votes,
}
use cli_demo.Presenter.Poll.SortKey.{choice_of, choice_of-ballot, has_hash}
use cli_demo.Presenter.Poll.{meta_key, ballot_key, meta_sk}

abbrev says : String → Option String → Bool
says c none = false
says c (some d) = d == c

-- The key of a ballot for a choice in a poll, whoever cast it.
abbrev is_ballot : String → String → Key → Bool
is_ballot pid c k = k.poll_id == pid && says c (choice_of k.connection_id)

abbrev pub ballots : String → String → Table → ℕ
ballots pid c t = count_keys (is_ballot pid c) t

pub record IsTallied (t : Table) : Type 0 where
  pub unique : IsUnique t
  pub tallied :
      (pid : String) (m : MetaRecord)
      → lookup (meta_key pid) t ≡ some (meta m)
      → (c : String) → tally c m.votes ≡ pos (ballots pid c t)
  pub closed : (pid : String) → lookup (meta_key pid) t ≡ none → (c : String) → ballots pid c t ≡ 0

pub tally-insert :
    (c d : String) (n : ℤ) (v : Dict String ℤ)
    → tally d (insert c n v) ≡ (if c == d then n else tally d v)
unfolding tally
tally-insert c d n v = ground (arith, lookup-insert c d n v)

pub tally-plus_one :
    (c d : String) (v : Dict String ℤ)
    → tally d (act (plus_one c) v) ≡ (if c == d then tally c v +ℤ pos 1 else tally d v)
unfolding act
tally-plus_one c d v = tally-insert c d _ v

pub tally-minus_one :
    (c d : String) (v : Dict String ℤ)
    → tally d (act (minus_one c) v) ≡ (if c == d then tally c v -ℤ pos 1 else tally d v)
unfolding act
tally-minus_one c d v = tally-insert c d _ v

pub change-IsTallied :
    (p₀ : String) (m' : MetaRecord) {t t' : Table}
    → IsTallied t
    → IsUnique t'
    → ((p : String)
        → lookup (meta_key p) t' ≡ (if p₀ == p then some (meta m') else lookup (meta_key p) t))
    → ((p c : String) → (p₀ == p) ≡ false → ballots p c t' ≡ ballots p c t)
    → ((c : String) → tally c m'.votes ≡ pos (ballots p₀ c t'))
    → IsTallied t'
change-IsTallied p₀ m' {t} {t'} h unique metas others counted = record {
  unique = unique;
  tallied = λ p m f c. elim (Bool-cases (p₀ == p)) [
    | inl same ↦ same_poll p m c f same
    | inr diff ↦ rw (others p c diff) (h.tallied p m (rw (metas p, diff) at f) c)
  ];
  closed = λ p f c. elim (Bool-cases (p₀ == p)) [
    | inl same ↦ absurd (ground (arith, metas p))
    | inr diff ↦ rw (others p c diff) (h.closed p (rw (metas p, diff) at f) c)
  ];
}
  where
    same_poll :
        (p : String) (m : MetaRecord) (c : String)
        → lookup (meta_key p) t' ≡ some (meta m)
        → (p₀ == p) ≡ true
        → tally c m.votes ≡ pos (ballots p c t')
    same_poll p m c f same =
        let e : p₀ ≡ p = (eq_iff p₀ p).0 same in
        let f' : m' ≡ m = cc (metas p, same, f) in rw (← e, ← f') (counted c)

-- The same where the META record is written over, after a change of ballots.
pub update-IsTallied :
    (pid : String) {m : MetaRecord} (m' : MetaRecord) (t₁ : Table) {t : Table}
    → IsTallied t
    → IsUnique t₁
    → ((p : String) → lookup (meta_key p) t₁ ≡ lookup (meta_key p) t)
    → lookup (meta_key pid) t ≡ some (meta m)
    → ((p c : String) → (pid == p) ≡ false → ballots p c t₁ ≡ ballots p c t)
    → ((c : String) → tally c m'.votes ≡ pos (ballots pid c t₁))
    → IsTallied (insert (meta_key pid) (meta m') t₁)
update-IsTallied pid {m} m' t₁ {t} h unique metas open_poll others counted =
    change-IsTallied pid m' h (insert-IsUnique (meta_key pid) (meta m') t₁ unique)
      (λ p. ground (arith, lookup-insert (meta_key pid) (meta_key p) (meta m') t₁, metas p))
      (λ p c diff. same_count p c ∙ others p c diff)
      (λ c. counted c ∙ ap pos (sym (same_count pid c)))
  where
    same_count : (p c : String) → ballots p c (insert (meta_key pid) (meta m') t₁) ≡ ballots p c t₁
    same_count p c =
        count_keys-insert_old (is_ballot p c) (meta_key pid) (meta m') t₁ unique
          (metas pid ∙ open_poll)

-- A row with counters is a META record.
pub has_votes-meta : (o : Option Row) → has_votes o ≡ true → (m : MetaRecord) × (o ≡ some (meta m))
has_votes-meta none h = absurd (cc h)
has_votes-meta (some (meta m)) h = (m, refl)
has_votes-meta (some (ballot n)) h = absurd (cc h)

choice_of-meta_sk : choice_of meta_sk ≡ none
unfolding choice_of
choice_of-meta_sk = refl

-- The key of a ballot is not the META key.
pub ballot-ne-meta :
    (visitor c : String) → has_hash visitor ≡ false → (visitor <> "#" <> c == meta_sk) ≡ false
ballot-ne-meta v c h = elim (Bool-cases (v <> "#" <> c == meta_sk)) [
  | inl e ↦
      let p = ap choice_of ((eq_iff (v <> "#" <> c) meta_sk).0 e) in
      absurd (cc (p, choice_of-ballot v c h, choice_of-meta_sk))
  | inr e ↦ e
]

module _ (pid visitor : String) (no_hash : has_hash visitor ≡ false) (t : Table) where
  -- How much a ballot counts for a choice of a poll.
  is_ballot-ballot_key :
      (p c d : String) → is_ballot p d (ballot_key pid visitor c) ≡ (pid == p && c == d)
  is_ballot-ballot_key p c d = rw (choice_of-ballot visitor c no_hash)

  pub lookup_meta-insert :
      (p c : String) (r : Row)
      → lookup (meta_key p) (insert (ballot_key pid visitor c) r t) ≡ lookup (meta_key p) t
  lookup_meta-insert p c r =
      rw (lookup-insert (ballot_key pid visitor c) (meta_key p) r t)
        (ground (arith, ballot-ne-meta visitor c no_hash))

  pub lookup_meta-without :
      (p c : String)
      → lookup (meta_key p) (without (ballot_key pid visitor c) t) ≡ lookup (meta_key p) t
  lookup_meta-without p c =
      rw (lookup-without (ballot_key pid visitor c) (meta_key p) t)
        (ground (arith, ballot-ne-meta visitor c no_hash))

  pub ballots-insert :
      (c₀ : String) (ttl : ℕ) (p c : String)
      → lookup (ballot_key pid visitor c₀) t ≡ none
      → ballots p c (insert (ballot_key pid visitor c₀) (ballot ttl) t)
        ≡ one_if (pid == p && c₀ == c) + ballots p c t
  ballots-insert c₀ ttl p c absent =
      rw (← is_ballot-ballot_key p c₀ c)
        (count_keys-insert_new (is_ballot p c) (ballot_key pid visitor c₀) (ballot ttl) t absent)

  pub ballots-without :
      (c₀ : String) (p c : String) {r : Row}
      → IsUnique t
      → lookup (ballot_key pid visitor c₀) t ≡ some r
      → ballots p c t
        ≡ ballots p c (without (ballot_key pid visitor c₀) t) + one_if (pid == p && c₀ == c)
  ballots-without c₀ p c unique present =
      rw (← is_ballot-ballot_key p c₀ c)
        (count_keys-without (is_ballot p c) (ballot_key pid visitor c₀) t unique present)

-- A META row is no ballot.
pub ballots-insert_meta :
    (pid : String) (m : MetaRecord) (t : Table) (p c : String)
    → lookup (meta_key pid) t ≡ none
    → ballots p c (insert (meta_key pid) (meta m) t) ≡ ballots p c t
ballots-insert_meta pid m t p c absent = ground (
  arith,
  count_keys-insert_new (is_ballot p c) (meta_key pid) (meta m) t absent,
  choice_of-meta_sk,
)
