-- ===== src/Presenter/Poll/Outcomes.antt =====
-- What Vote, Unvote and Switch answer and write, as a function of the table, while DynamoDB is
-- available.
use cli_demo.Prelude.{
  ◌+◌, String, ◌<>◌, ◌≡◌, refl, ap, ◌∙◌, Bool, true, false, not, ◌||◌, List, [], Option, none, some,
  ◌==◌, string_eq, length, if◌then◌else◌, Bool-cases, Option-cases, inl, inr,
}
use cli_demo.Prelude.Int.{pos, leb_ℤ}
use cli_demo.Prelude.Dict.{lookup}
use cli_demo.GoError.{
  sentinel, wrap, invalid_choice, max_choices_exceeded, duplicate_vote, vote_not_found,
}
use cli_demo.Effect.{Result, ok, err, raise, continue}
use cli_demo.Effect.Answers.{
  Answers, Answers-bind, Answers-pure, Answers-raise, Answers-lift, Answers-attempt,
  Answers-wrapping, Answers-if, Answers-eq,
}
use cli_demo.Presenter.Poll.{
  Store, MetaRecord, meta, key_eq, Write, meta_key, ballot_key, vote_writes, unvote_writes,
  switch_writes, contains, choices_of, get_meta, found_meta, get_my_choices, may_vote, cast, vote,
  vote_done, unvote, unvote_done, switch, switch_done, switch_reasons, move, ttl_duration, holds,
  all_hold, apply_all, vote_error, unvote_error, switch_error, first_failed, Table,
}
use cli_demo.Presenter.Poll.Available.{
  IsAvailable, query_items, cancel_codes, code_of, validation_exception,
}
use cli_demo.Presenter.Poll.Distinct.{
  distinct-vote_writes, distinct-unvote_writes, distinct-switch_writes,
}

abbrev is_some {ℓ} : {A : Type ℓ} → Option A → Bool
is_some none = false
is_some (some a) = true

-- The choices that a visitor has ballots for.
unfoldable pub my_choices : String → String → Table → List String
my_choices pid visitor t =
    if visitor == "" then [] else choices_of (query_items pid (visitor <> "#") t)

unfoldable pub voted : String → String → String → Table → Bool
voted pid visitor choice t = is_some (lookup (ballot_key pid visitor choice) t)

-- The checks that Vote makes before it writes.
unfoldable pub vote_check : MetaRecord → String → String → String → Table → Result (Unit {0})
vote_check m pid visitor choice t =
    if not (contains m.options choice)
    then err (sentinel invalid_choice)
    else if leb_ℤ m.max_choices (pos (length (my_choices pid visitor t)))
    then err (sentinel max_choices_exceeded)
    else ok tt

abbrev pub and_then : Result (Unit {0}) → Result (Unit {0}) → Result (Unit {0})
and_then (ok u) r = r
and_then (err e) r = err e

-- The rows are written where the answer is a success, and left alone where it is an error.
abbrev pub written : Result (Unit {0}) → List Write → Table → Table
written (ok u) ws t = apply_all ws t
written (err e) ws t = t

-- What the transaction of Vote answers.
abbrev pub cast_answer : String → String → String → Table → Result (Unit {0})
cast_answer pid visitor choice t =
    if voted pid visitor choice t then err (sentinel duplicate_vote) else ok tt

abbrev pub vote_answer : MetaRecord → String → String → String → Table → Result (Unit {0})
vote_answer m pid visitor choice t =
    and_then (vote_check m pid visitor choice t) (cast_answer pid visitor choice t)

abbrev pub unvote_answer : String → String → String → Table → Result (Unit {0})
unvote_answer pid visitor choice t =
    if voted pid visitor choice t then ok tt else err (sentinel vote_not_found)

-- What the transaction of Switch answers.
abbrev pub move_answer : String → String → String → String → Table → Result (Unit {0})
move_answer pid visitor from to t =
    if from == to
    then err (wrap "transact switch" validation_exception)
    else if not (voted pid visitor from t)
    then err (sentinel vote_not_found)
    else if voted pid visitor to t
    then err (sentinel duplicate_vote)
    else ok tt

abbrev pub switch_answer :
    MetaRecord → String → String → String → String → Table → Result (Unit {0})
switch_answer m pid visitor from to t =
    if not (contains m.options from) || not (contains m.options to)
    then err (sentinel invalid_choice)
    else move_answer pid visitor from to t

module _ {W : Type 0} (st : Store W) (table : W → Table) (law : IsAvailable st table) where
  open law use {clock}

  module _ (pid : String) (m : MetaRecord) (t : Table)
      (open_poll : lookup (meta_key pid) t ≡ some (meta m)) where
    get_meta-Answers : Answers table (get_meta st pid) t (ok m) t
    unfolding get_meta found_meta
    get_meta-Answers =
        Answers-bind _ _ (ok (some (meta m)))
          (Answers-eq (Answers-wrapping "get meta" (law.get_item_answers (meta_key pid) t))
            (rw open_poll) refl)
          (Answers-eq
            (Answers-wrapping "unmarshal meta" (Answers-lift (st.unmarshal_map (meta m)) t))
            (rw (law.unmarshal_meta m)) refl)

    get_my_choices-Answers :
        (visitor : String)
        → Answers table (get_my_choices st pid visitor) t (ok (my_choices pid visitor t)) t
    unfolding get_my_choices my_choices
    get_my_choices-Answers visitor = elim (Bool-cases (visitor == "")) [
      | inl e ↦ rw e (Answers-pure [] t)
      | inr e ↦ rw e (
          Answers-bind _ _ (ok (query_items pid (visitor <> "#") t))
            (Answers-wrapping "query my choices" (law.query_answers pid (visitor <> "#") t))
            (Answers-pure _ t))
    ]

    pub may_vote-Answers :
        (visitor choice : String)
        → Answers table (may_vote st pid visitor choice) t (vote_check m pid visitor choice t) t
    unfolding may_vote vote_check
    may_vote-Answers visitor choice = Answers-bind _ _ (ok m) get_meta-Answers (
        Answers-if (not (contains m.options choice)) (Answers-raise _ t) (
          Answers-bind _ _ (ok (my_choices pid visitor t)) (get_my_choices-Answers visitor) (
            Answers-if (leb_ℤ m.max_choices (pos (length (my_choices pid visitor t))))
              (Answers-raise _ t) (Answers-pure tt t))))

    pub cast-Answers :
        (visitor choice : String)
        → Answers table (cast st pid visitor choice) t (cast_answer pid visitor choice t) (
            written
              (cast_answer pid visitor choice t)
              (vote_writes pid visitor choice (clock + ttl_duration))
              t)
    unfolding cast vote_done voted all_hold holds cancel_codes code_of vote_error first_failed
    cast-Answers visitor choice =
        let ws = vote_writes pid visitor choice (clock + ttl_duration) in
        Answers-bind _ _ (ok clock) (law.now_answers t) (
          Answers-bind _ _ _
            (Answers-attempt
              (law.transact_answers ws t (distinct-vote_writes pid visitor choice _)))
            (elim (Option-cases (lookup (ballot_key pid visitor choice) t)) [
              | inl e ↦ rw (e, open_poll) (Answers-pure tt (apply_all ws t))
              | inr (r, e) ↦ rw (e, open_poll) (Answers-raise (sentinel duplicate_vote) t)
            ]))

    after_check :
        (visitor choice : String) (c : Result (Unit {0}))
        → Answers table
            (continue c (λ _. cast st pid visitor choice))
            t
            (and_then c (cast_answer pid visitor choice t))
            (written
              (and_then c (cast_answer pid visitor choice t))
              (vote_writes pid visitor choice (clock + ttl_duration))
              t)
    unfolding raise
    after_check visitor choice (ok u) = cast-Answers visitor choice
    after_check visitor choice (err e) = Answers-raise e t

    -- While DynamoDB is available, its reads are up to date and the poll is open, Vote
    -- answers and writes exactly as `vote_answer` says: an invalid choice, too many choices
    -- and a duplicate vote are errors in this order, and leave the table as it is; otherwise
    -- the ballot is written and its counter goes up by one.
    pub vote-Answers :
        (visitor choice : String)
        → Answers table (vote st pid visitor choice) t (vote_answer m pid visitor choice t) (
            written
              (vote_answer m pid visitor choice t)
              (vote_writes pid visitor choice (clock + ttl_duration))
              t)
    unfolding vote
    vote-Answers visitor choice =
        Answers-bind _ _ (vote_check m pid visitor choice t) (may_vote-Answers visitor choice)
          (after_check visitor choice (vote_check m pid visitor choice t))

    -- While DynamoDB is available, its reads are up to date and the poll is open, Unvote
    -- answers and writes exactly as `unvote_answer` says: a missing vote is an error and
    -- leaves the table as it is; otherwise the ballot is deleted and its counter goes down
    -- by one.
    pub unvote-Answers :
        (visitor choice : String)
        → Answers table
            (unvote st pid visitor choice)
            t
            (unvote_answer pid visitor choice t)
            (written (unvote_answer pid visitor choice t) (unvote_writes pid visitor choice) t)
    unfolding unvote unvote_done voted all_hold holds cancel_codes code_of unvote_error first_failed
    unvote-Answers visitor choice =
        let ws = unvote_writes pid visitor choice in
        Answers-bind _ _ _
          (Answers-attempt (law.transact_answers ws t (distinct-unvote_writes pid visitor choice)))
          (elim (Option-cases (lookup (ballot_key pid visitor choice) t)) [
            | inl e ↦ rw (e, open_poll) (Answers-raise (sentinel vote_not_found) t)
            | inr (r, e) ↦ rw (e, open_poll) (Answers-pure tt (apply_all ws t))
          ])

    move-Answers :
        (visitor from to : String)
        → Answers table (move st pid visitor from to) t (move_answer pid visitor from to t) (
            written
              (move_answer pid visitor from to t)
              (switch_writes pid visitor from to (clock + ttl_duration))
              t)
    unfolding move switch_done voted all_hold holds cancel_codes code_of switch_error switch_reasons
    move-Answers visitor from to =
        let ws = switch_writes pid visitor from to (clock + ttl_duration) in
        let d = distinct-switch_writes pid visitor from to (clock + ttl_duration) in
        Answers-bind _ _ (ok clock) (law.now_answers t) (elim (Bool-cases (from == to)) [
          | inl s ↦
              Answers-bind _ _ (ok (err validation_exception))
                (Answers-attempt (law.transact_rejects ws t (d ∙ ap not s)))
                (rw s (Answers-raise (wrap "transact switch" validation_exception) t))
          | inr s ↦
              Answers-bind _ _ _ (Answers-attempt (law.transact_answers ws t (d ∙ ap not s)))
                (elim (Option-cases (lookup (ballot_key pid visitor from) t)) [
                  | inl e ↦ elim (Option-cases (lookup (ballot_key pid visitor to) t)) [
                    | inl f ↦ rw (s, e, f, open_poll) (Answers-raise (sentinel vote_not_found) t)
                    | inr (q, f) ↦
                        rw (s, e, f, open_poll) (Answers-raise (sentinel vote_not_found) t)
                  ]
                  | inr (r, e) ↦ elim (Option-cases (lookup (ballot_key pid visitor to) t)) [
                    | inl f ↦ rw (s, e, f, open_poll) (Answers-pure tt (apply_all ws t))
                    | inr (q, f) ↦
                        rw (s, e, f, open_poll) (Answers-raise (sentinel duplicate_vote) t)
                  ]
                ])
        ])

    moved_if :
        (visitor from to : String) (b : Bool)
        → let r : Result (Unit {0}) =
            if b then err (sentinel invalid_choice) else move_answer pid visitor from to t in
          Answers table
            (if b then raise (sentinel invalid_choice) else move st pid visitor from to)
            t
            r
            (written r (switch_writes pid visitor from to (clock + ttl_duration)) t)
    moved_if visitor from to true = Answers-raise (sentinel invalid_choice) t
    moved_if visitor from to false = move-Answers visitor from to

    -- While DynamoDB is available, its reads are up to date and the poll is open, Switch
    -- answers and writes exactly as `switch_answer` says: an invalid choice, two choices
    -- that are the same (which DynamoDB rejects, as two writes on one item), a missing vote
    -- and a duplicate vote are errors in this order, and leave the table as it is; otherwise
    -- the ballot moves, and so do the two counters.
    pub switch-Answers :
        (visitor from to : String)
        → Answers table (switch st pid visitor from to) t (switch_answer m pid visitor from to t) (
            written
              (switch_answer m pid visitor from to t)
              (switch_writes pid visitor from to (clock + ttl_duration))
              t)
    unfolding switch
    switch-Answers visitor from to =
        Answers-bind _ _ (ok m) get_meta-Answers (moved_if visitor from to _)
