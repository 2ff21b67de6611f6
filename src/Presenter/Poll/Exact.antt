-- ===== src/Presenter/Poll/Exact.antt =====
-- presenter/internal/poll: the poll operations and the counters, whatever the services answer.
use mathlib.Core.Path.{subst}
use cli_demo.Prelude.{◌+◌, String, ◌≡◌, refl, sym, Bool, true, false, List, Option, none, some}
use cli_demo.Prelude.Int.{ℤ}
use cli_demo.Effect.{Result, ok, err, Eff}
use cli_demo.Effect.Commit.{Commit, Commit-keeps}
use cli_demo.Effect.Keeps.{Keeps, keeps_rules, Keeps-bind, Keeps-attempt, Keeps-bind-wrapping_lift}
use cli_demo.Presenter.Poll.{
  Store, MetaRecord, Row, meta, Write, Unswept, IsDynamo, get_meta, get_my_choices, open_meta, get,
  vote, unvote, switch, move, cast, may_vote, found_meta, opened_meta, open_if, vote_done,
  unvote_done, switch_done, init_votes, meta_key, ttl_duration, attribute_not_exists, Key, all_hold,
  apply_all,
}
use cli_demo.Presenter.Poll.Rows.{Table}
use cli_demo.Presenter.Poll.SortKey.{has_hash}
use cli_demo.Presenter.Poll.Tally.{IsTallied}
use cli_demo.Presenter.Poll.Writes.{
  vote_writes-IsTallied, unvote_writes-IsTallied, switch_writes-IsTallied, open_writes-IsTallied,
}

-- What the store relies on: DynamoDB, a clock that writes nothing, and marshalling that keeps a META
-- record what it is.
pub record IsLawful {W : Type 0} (st : Store W) (table : W → Table) (swept : W → Bool)
    : Type 0 where
  pub dynamo : IsDynamo st.client table swept
  pub now_reads : (w : W) → Unswept swept st.now w (table (st.now w).1 ≡ table w)
  pub marshal_meta : (m : MetaRecord) (r : Row) → st.marshal_map m ≡ ok r → r ≡ meta m

module _ {W : Type 0} (st : Store W) (table : W → Table) (swept : W → Bool)
    (law : IsLawful st table swept) where
  -- The table is tallied, unless DynamoDB has deleted a row for its time to live.
  abbrev pub Tallied : W → Type 0
  Tallied w = swept w ≡ false → IsTallied (table w)

  reads-Tallied :
      {A : Type 0} (m : Eff W A)
      → ((w : W) → Unswept swept m w (table (m w).1 ≡ table w))
      → Keeps Tallied m
  reads-Tallied m l = record { at = λ w h s. let x = l w s in subst IsTallied (sym x.1) (h x.0) }

  writes-Tallied :
      {accepted : Table → Bool} {applied : Table → Table} (m : Eff W (Unit {0}))
      → ((w : W)
          → Unswept swept m w
              (Commit (table w) (table (m w).1) (accepted (table w)) (applied (table w)) (m w).0))
      → ((t : Table) → IsTallied t → accepted t ≡ true → IsTallied (applied t))
      → Keeps Tallied m
  writes-Tallied m l step = record {
    at = λ w h s. let x = l w s in Commit-keeps IsTallied (step (table w) (h x.0)) (h x.0) x.1;
  }

  now-Tallied : Keeps Tallied st.now
  now-Tallied = reads-Tallied _ law.now_reads

  get_item-Tallied : (k : Key) → Keeps Tallied (st.client.get_item k)
  get_item-Tallied k = reads-Tallied _ (law.dynamo.get_item_reads k)

  query-Tallied : (p prefix : String) → Keeps Tallied (st.client.query p prefix)
  query-Tallied p prefix = reads-Tallied _ (law.dynamo.query_reads p prefix)

  transact-Tallied :
      (ws : List Write)
      → ((t : Table) → IsTallied t → all_hold t ws ≡ true → IsTallied (apply_all ws t))
      → Keeps Tallied (st.client.transact_write_items ws)
  transact-Tallied ws step = writes-Tallied _ (law.dynamo.transact_commits ws) step

  found_meta-Tallied : (o : Option Row) → Keeps Tallied (found_meta st o)
  unfolding found_meta
  found_meta-Tallied none = search keeps_rules
  found_meta-Tallied (some r) = search keeps_rules

  get_meta-Tallied : (pid : String) → Keeps Tallied (get_meta st pid)
  unfolding get_meta
  get_meta-Tallied pid = search (keeps_rules, get_item-Tallied, found_meta-Tallied)

  get_my_choices-Tallied : (pid visitor : String) → Keeps Tallied (get_my_choices st pid visitor)
  unfolding get_my_choices
  get_my_choices-Tallied pid visitor = search (keeps_rules, query-Tallied)

  opened_meta-Tallied : (r : Result (Unit {0})) → Keeps Tallied (opened_meta st r)
  unfolding opened_meta
  opened_meta-Tallied (ok u) = search keeps_rules
  opened_meta-Tallied (err e) = search keeps_rules

  vote_done-Tallied : (r : Result (Unit {0})) → Keeps Tallied (vote_done st r)
  unfolding vote_done
  vote_done-Tallied (ok u) = search keeps_rules
  vote_done-Tallied (err e) = search keeps_rules

  unvote_done-Tallied : (r : Result (Unit {0})) → Keeps Tallied (unvote_done st r)
  unfolding unvote_done
  unvote_done-Tallied (ok u) = search keeps_rules
  unvote_done-Tallied (err e) = search keeps_rules

  switch_done-Tallied : (r : Result (Unit {0})) → Keeps Tallied (switch_done st r)
  unfolding switch_done
  switch_done-Tallied (ok u) = search keeps_rules
  switch_done-Tallied (err e) = search keeps_rules

  put_meta-Tallied :
      (pid : String) (options : List String) (m : MetaRecord) (r : Row)
      → m.votes ≡ init_votes options
      → st.marshal_map m ≡ ok r
      → Keeps Tallied (st.client.put_item (meta_key pid) r attribute_not_exists)
  put_meta-Tallied pid options m r start marshalled = rw (law.marshal_meta m r marshalled) (
      writes-Tallied _ (law.dynamo.put_item_commits (meta_key pid) (meta m) attribute_not_exists)
        (λ t h. open_writes-IsTallied pid m options h start))

  open_meta-Tallied :
      (pid : String) (options : List String) (max_choices : ℤ)
      → Keeps Tallied (open_meta st pid options max_choices)
  unfolding open_meta
  open_meta-Tallied pid options max_choices = Keeps-bind _ _ now-Tallied (λ t.
      Keeps-bind-wrapping_lift _ _ _ (λ r e.
        Keeps-bind _ _ (Keeps-attempt _ (put_meta-Tallied pid options _ r refl e))
          opened_meta-Tallied))

  open_if-Tallied :
      (b : Bool) (pid : String) (options : Option (List String)) (max_choices : ℤ)
      → Keeps Tallied (open_if st b pid options max_choices)
  unfolding open_if
  open_if-Tallied false pid options max_choices = search keeps_rules
  open_if-Tallied true pid none max_choices = search keeps_rules
  open_if-Tallied true pid (some options) max_choices = open_meta-Tallied pid options max_choices

  -- Get keeps the counters exact, also where it opens the poll.
  pub get-IsTallied :
      (pid visitor : String) (options : Option (List String)) (max_choices : ℤ) (presenter : Bool)
      → Keeps Tallied (get st pid visitor options max_choices presenter)
  unfolding get
  get-IsTallied pid visitor options max_choices presenter =
      search (keeps_rules, open_if-Tallied, get_meta-Tallied, get_my_choices-Tallied)

  may_vote-Tallied : (pid visitor choice : String) → Keeps Tallied (may_vote st pid visitor choice)
  unfolding may_vote
  may_vote-Tallied pid visitor choice =
      search (keeps_rules, get_meta-Tallied, get_my_choices-Tallied)

  module _ (pid visitor : String) (no_hash : has_hash visitor ≡ false) where
    cast-Tallied : (choice : String) → Keeps Tallied (cast st pid visitor choice)
    unfolding cast
    cast-Tallied choice = Keeps-bind _ _ now-Tallied (λ t.
        Keeps-bind _ _
          (Keeps-attempt _ (
            transact-Tallied _
              (λ t' h. vote_writes-IsTallied pid visitor no_hash h choice (t + ttl_duration))))
          vote_done-Tallied)

    -- Vote keeps the counters exact.
    pub vote-IsTallied : (choice : String) → Keeps Tallied (vote st pid visitor choice)
    unfolding vote
    vote-IsTallied choice = search (keeps_rules, may_vote-Tallied, cast-Tallied)

    -- Unvote keeps the counters exact.
    pub unvote-IsTallied : (choice : String) → Keeps Tallied (unvote st pid visitor choice)
    unfolding unvote
    unvote-IsTallied choice =
        Keeps-bind _ _
          (Keeps-attempt _
            (transact-Tallied _ (λ t h. unvote_writes-IsTallied pid visitor no_hash h choice)))
          unvote_done-Tallied

    move-Tallied : (from to : String) → Keeps Tallied (move st pid visitor from to)
    unfolding move
    move-Tallied from to = Keeps-bind _ _ now-Tallied (λ t.
        Keeps-bind _ _
          (Keeps-attempt _ (
            transact-Tallied _
              (λ t' h. switch_writes-IsTallied pid visitor no_hash h from to (t + ttl_duration))))
          switch_done-Tallied)

    -- Switch keeps the counters exact.
    pub switch-IsTallied : (from to : String) → Keeps Tallied (switch st pid visitor from to)
    unfolding switch
    switch-IsTallied from to = search (keeps_rules, get_meta-Tallied, move-Tallied)
