-- ===== src/Presenter/Poll/Frames.antt =====
-- presenter/internal/poll: what the operations that open no poll keep.
use cli_demo.Prelude.{String, false, Option, none, some, List}
use cli_demo.Prelude.Int.{ℤ}
use cli_demo.Effect.{Result, ok, err, Eff}
use cli_demo.Effect.Keeps.{Keeps, keeps_rules, Keeps-bind}
use cli_demo.Presenter.Poll.{
  Store, Row, Key, Write, found_meta, get_meta, get_my_choices, open_if, get, vote_done, cast,
  may_vote, vote, unvote_done, unvote, switch_done, move, switch,
}

-- The clock, and the calls on the table other than the conditional put, each of which has `R`.
pub record IsOutside {W : Type 0} (st : Store W) (R : (A : Type 0) → Eff W A → Type 0)
    : Type 0 where
  pub clock : R _ st.now
  pub gets : (k : Key) → R _ (st.client.get_item k)
  pub queries : (pid prefix : String) → R _ (st.client.query pid prefix)
  pub transacts : (ws : List Write) → R _ (st.client.transact_write_items ws)

module _ {W : Type 0} (st : Store W) (P : W → Type 0)
    (gets : (k : Key) → Keeps P (st.client.get_item k))
    (queries : (pid prefix : String) → Keeps P (st.client.query pid prefix)) where
  found_meta-keeps : (o : Option Row) → Keeps P (found_meta st o)
  unfolding found_meta
  found_meta-keeps none = search keeps_rules
  found_meta-keeps (some r) = search keeps_rules

  get_meta-keeps : (pid : String) → Keeps P (get_meta st pid)
  unfolding get_meta
  get_meta-keeps pid = search (keeps_rules, gets, found_meta-keeps)

  get_my_choices-keeps : (pid visitor : String) → Keeps P (get_my_choices st pid visitor)
  unfolding get_my_choices
  get_my_choices-keeps pid visitor = search (keeps_rules, queries)

  pub get-keeps :
      (pid visitor : String) (options : Option (List String)) (max_choices : ℤ)
      → Keeps P (get st pid visitor options max_choices false)
  unfolding get open_if
  get-keeps pid visitor options max_choices =
      search (keeps_rules, get_meta-keeps, get_my_choices-keeps)

module _ {W : Type 0} (st : Store W) (P : W → Type 0)
    (outside : IsOutside st (λ A m. Keeps P m)) where
  open outside use {clock, gets, queries, transacts}

  vote_done-keeps : (r : Result (Unit {0})) → Keeps P (vote_done st r)
  unfolding vote_done
  vote_done-keeps (ok u) = search keeps_rules
  vote_done-keeps (err e) = search keeps_rules

  unvote_done-keeps : (r : Result (Unit {0})) → Keeps P (unvote_done st r)
  unfolding unvote_done
  unvote_done-keeps (ok u) = search keeps_rules
  unvote_done-keeps (err e) = search keeps_rules

  switch_done-keeps : (r : Result (Unit {0})) → Keeps P (switch_done st r)
  unfolding switch_done
  switch_done-keeps (ok u) = search keeps_rules
  switch_done-keeps (err e) = search keeps_rules

  cast-keeps : (pid visitor choice : String) → Keeps P (cast st pid visitor choice)
  unfolding cast
  cast-keeps pid visitor choice =
      Keeps-bind _ _ clock (λ t. search (keeps_rules, transacts, vote_done-keeps))

  may_vote-keeps : (pid visitor choice : String) → Keeps P (may_vote st pid visitor choice)
  unfolding may_vote
  may_vote-keeps pid visitor choice =
      search (keeps_rules, get_meta-keeps st P gets queries, get_my_choices-keeps st P gets queries)

  pub vote-keeps : (pid visitor choice : String) → Keeps P (vote st pid visitor choice)
  unfolding vote
  vote-keeps pid visitor choice = search (keeps_rules, may_vote-keeps, cast-keeps)

  pub unvote-keeps : (pid visitor choice : String) → Keeps P (unvote st pid visitor choice)
  unfolding unvote
  unvote-keeps pid visitor choice = search (keeps_rules, transacts, unvote_done-keeps)

  move-keeps : (pid visitor from to : String) → Keeps P (move st pid visitor from to)
  unfolding move
  move-keeps pid visitor from to =
      Keeps-bind _ _ clock (λ t. search (keeps_rules, transacts, switch_done-keeps))

  pub switch-keeps : (pid visitor from to : String) → Keeps P (switch st pid visitor from to)
  unfolding switch
  switch-keeps pid visitor from to =
      search (keeps_rules, get_meta-keeps st P gets queries, move-keeps)
