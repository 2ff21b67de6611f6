-- ===== src/Tests/Poll.antt =====
-- Instances of the poll theorems, over a table in memory.
use cli_demo.Prelude.{◌<>◌, ◌+◌, ◌≡◌, refl, [], ◌∷◌, some, length}
use cli_demo.Prelude.Int.{pos, ◌≤ℤ◌}
use cli_demo.Prelude.Dict.{lookup}
use cli_demo.GoError.{sentinel, vote_not_found}
use cli_demo.Effect.{ok, err, ◌>>=◌, wrapping}
use cli_demo.Effect.Answers.{Answers}
use cli_demo.Presenter.Poll.{
  MetaRecord, meta, ballot, key_eq, Table, meta_key, ballot_key, vote, unvote, switch, contains,
  choices_of, apply_all, all_hold, holds, vote_writes, switch_writes, ttl_duration, may_vote, cast,
  get_meta, get_my_choices,
}
use cli_demo.Presenter.Poll.SortKey.{has_hash, choice_of, choice_of-ballot}
use cli_demo.Presenter.Poll.Available.{query_items}
use cli_demo.Presenter.Poll.Outcomes.{
  my_choices, voted, vote_check, vote-Answers, unvote-Answers, switch-Answers,
}
use cli_demo.Presenter.Poll.Race.{vote-le-max_choices, interleaved, interleaved_exceeds}
use cli_demo.Presenter.Poll.Available.{distinct, writes_to}
use cli_demo.Presenter.Poll.Memory.{memory, memory-IsAvailable}

-- A poll with two options, of which a visitor may choose one.
abbrev poll : MetaRecord
poll = record {
  poll_id = "p";
  conn_id = "META";
  options = "a" ∷ "b" ∷ [];
  max_choices = pos 1;
  votes = ("a", pos 0) ∷ ("b", pos 0) ∷ [];
  ttl = 0;
}

abbrev opened : Table
opened = (meta_key "p", meta poll) ∷ []

-- Visitor v has chosen a.
abbrev chosen : Table
chosen = (ballot_key "p" "v" "a", ballot 0) ∷ opened

poll_is_open : lookup (meta_key "p") opened ≡ some (meta poll)
unfolding lookup
poll_is_open = refl

poll_stays_open : lookup (meta_key "p") chosen ≡ some (meta poll)
unfolding lookup
poll_stays_open = refl

vote-Answers_example :
    Answers
      (λ t. t)
      (vote memory "p" "w" "b")
      opened
      (ok tt)
      (apply_all (vote_writes "p" "w" "b" (1000 + ttl_duration)) opened)
unfolding memory-IsAvailable vote_check voted contains lookup my_choices choices_of query_items
vote-Answers_example =
    vote-Answers memory (λ t. t) memory-IsAvailable "p" poll opened poll_is_open "w" "b"

unvote-Answers_example :
    Answers (λ t. t) (unvote memory "p" "w" "a") chosen (err (sentinel vote_not_found)) chosen
unfolding voted lookup
unvote-Answers_example =
    unvote-Answers memory (λ t. t) memory-IsAvailable "p" poll chosen poll_stays_open "w" "a"

switch-Answers_example :
    Answers
      (λ t. t)
      (switch memory "p" "v" "a" "b")
      chosen
      (ok tt)
      (apply_all (switch_writes "p" "v" "a" "b" (1000 + ttl_duration)) chosen)
unfolding memory-IsAvailable voted lookup contains
switch-Answers_example =
    switch-Answers memory (λ t. t) memory-IsAvailable "p" poll chosen poll_stays_open "v" "a" "b"

choice_of-ballot_example : choice_of ("v" <> "#" <> "a#b") ≡ some "a#b"
unfolding has_hash
choice_of-ballot_example = choice_of-ballot "v" "a#b" refl

abbrev one_vote : Table
one_vote = (vote memory "p" "v" "a" opened).1

vote-le-max_choices_example : pos (length (my_choices "p" "v" one_vote)) ≤ℤ pos 1
unfolding vote may_vote cast get_meta get_my_choices ◌>>=◌ wrapping lookup contains choices_of
    query_items all_hold holds has_hash distinct writes_to
vote-le-max_choices_example =
    vote-le-max_choices memory (λ t. t) memory-IsAvailable "p" "v" refl refl poll opened (refl, tt)
      poll_is_open "a" refl

-- A choice of one, and two ballots.
interleaved_exceeds_example :
    ((interleaved memory "p" "v" "a" "b" opened).0 ≡ ok tt)
    × (pos (length (my_choices "p" "v" (interleaved memory "p" "v" "a" "b" opened).1)) ≡ pos 2)
unfolding contains voted lookup my_choices choices_of query_items has_hash
interleaved_exceeds_example =
    interleaved_exceeds memory (λ t. t) memory-IsAvailable "p" "v" refl refl poll opened (refl, tt)
      poll_is_open "a" "b" refl refl refl refl refl refl
