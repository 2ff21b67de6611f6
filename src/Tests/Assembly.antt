-- ===== src/Tests/Assembly.antt =====
-- Instances of the theorems on the assembled presenter, over tables in memory.
use cli_demo.Prelude.{
  String, ◌≡◌, refl, List, [], false, ◌∷◌, Option, none, some, ◌==◌, string_eq, ◌⊎◌, inl, inr,
  if◌then◌else◌, Bool-cases, arith,
}
use cli_demo.Prelude.Int.{ℤ, pos}
use cli_demo.Prelude.Dict.{lookup}
use cli_demo.Prelude.Dict.Counting.{count_keys}
use cli_demo.Effect.{ok, Eff, ◌>>=◌, wrapping}
use cli_demo.Presenter.Connection.{Connection, missing, is_valid}
use cli_demo.Presenter.Connection.Viewers.{IsConnectionTable, OnlyViewers}
use cli_demo.Presenter.Poll.{Store, Table, MetaRecord, meta, meta_key, key_eq}
use cli_demo.Presenter.Poll.Available.{IsAvailable}
use cli_demo.Presenter.Poll.SortKey.{has_hash}
use cli_demo.Presenter.Poll.Tally.{IsTallied}
use cli_demo.Presenter.Poll.Exact.{IsLawful}
use cli_demo.Presenter.Poll.Memory.{memory, memory-IsLawful, memory-IsAvailable}
use cli_demo.Presenter.Assembly.{
  Services, message_handler, Event, connects, says, disconnects, serve_all,
}
use cli_demo.Presenter.Assembly.Tallies.{IsSeparate, serve_all-IsTallied}
use cli_demo.Presenter.Assembly.Ballots.{ballot_effect, handle-Becomes}
use cli_demo.Presenter.Assembly.Privilege.{serve_all-Unprivileged}
use cli_demo.Effect.Answers.{Becomes}
use cli_demo.Presenter.Messages.{IncomingMessage, Request, handle}

-- The poll table, the connections and the page of the room.
abbrev World : Type 0
World = Table × List Connection × ℤ

abbrev on_polls : {A : Type 0} → Eff Table A → Eff World A
on_polls m w = ((m w.0).0, ((m w.0).1, w.1, w.2))

abbrev polls : Store World
polls = record {
  client = record {
    put_item = λ k r c. on_polls (memory.client.put_item k r c);
    get_item = λ k. on_polls (memory.client.get_item k);
    query = λ pid prefix. on_polls (memory.client.query pid prefix);
    transact_write_items = λ ws. on_polls (memory.client.transact_write_items ws);
  };
  now = on_polls memory.now;
  marshal_map = memory.marshal_map;
  unmarshal_map = memory.unmarshal_map;
}

abbrev found_in : String → List Connection → Option Connection
found_in id [] = none
found_in id (c ∷ cs) = let rest = found_in id cs in if c.connection_id == id then some c else rest

abbrev Among : Connection → List Connection → Type 0
Among i [] = ⊥
Among i (c ∷ cs) = (i ≡ c) ⊎ Among i cs

abbrev message : String → IncomingMessage
message body = record {
  type_name = body;
  page = pos 9;
  instruction = "";
  placeholder = "";
  poll_id = "p";
  options = some ("a" ∷ "b" ∷ []);
  max_choices = pos 1;
  choice = "a";
  from = "a";
  to = "b";
}

abbrev services : Services World Connection (Unit {0}) ℤ (Unit {0})
services = record {
  polls = polls;
  connections = record {
    client = record {
      put_item = λ c w. (ok tt, (w.0, c ∷ w.1, w.2));
      get_item = λ room id w. (ok (found_in id w.1), w);
      delete_item = λ room id w. (ok tt, w);
      query = λ room start w. (ok (record { items = w.1; count = 1; last_key = none }), w);
      query_count = λ room start w. (ok (record { items = w.1; count = 1; last_key = none }), w);
    };
    now = λ w. 1000;
    marshal_map = λ c. ok c;
    unmarshal_map = λ c. ok c;
  };
  sessions = record {
    get_item = λ token w. (ok none, w);
    put_item = λ i w. (ok tt, w);
    marshal_map = λ token status. ok tt;
    status = λ i. missing;
  };
  rooms = record {
    put_item = λ page w. (ok tt, (w.0, w.1, page));
    get_item = λ room w. (ok (some w.2), w);
    marshal_map = λ st. ok st.page;
    unmarshal_map = λ page. ok (record { room = "default"; page = page });
  };
  post_to_connection = λ endpoint id payload w. (ok tt, w);
  unmarshal_message = λ body. ok (message body);
  marshal_reply = λ r. ok "{}";
  marshal_message = λ m. ok "{}";
  extract_cookie = λ header name. "guess";
  fuel = 3;
}

-- A viewer connects, tries to show a page and to open a poll, votes, and leaves.
abbrev visitor : List Event
visitor =
    connects (record { connection_id = "v"; domain_name = "d"; stage = "prod"; headers = [] })
    ∷ says (record { connection_id = "v"; domain_name = "d"; stage = "prod"; body = "slide_sync" })
    ∷ says (record { connection_id = "v"; domain_name = "d"; stage = "prod"; body = "poll_open" })
    ∷ says (record { connection_id = "v"; domain_name = "d"; stage = "prod"; body = "poll_vote" })
    ∷ disconnects (record { connection_id = "v"; domain_name = "d"; stage = "prod"; headers = [] })
    ∷ []

abbrev presenter : Connection
presenter = record { room = "default"; connection_id = "p"; role = "presenter"; ttl = 9 }

polls-IsLawful : IsLawful polls (λ w. w.0) (λ w. false)
polls-IsLawful = record {
  dynamo = record {
    put_item_commits = λ k r c w s. memory-IsLawful.dynamo.put_item_commits k r c w.0 s;
    get_item_reads = λ k w s. (refl, refl);
    query_reads = λ p prefix w s. (refl, refl);
    transact_commits = λ ws w s. memory-IsLawful.dynamo.transact_commits ws w.0 s;
  };
  now_reads = λ w s. (refl, refl);
  marshal_meta = λ m r e. memory-IsLawful.marshal_meta m r e;
}

services-IsSeparate : IsSeparate services (λ w. w.0) (λ w. false)
services-IsSeparate = record {
  puts = λ i w s. (refl, refl);
  outside = record {
    gets = λ room id w s. (refl, refl);
    deletes = λ room id w s. (refl, refl);
    queries = λ room start w s. (refl, refl);
    counts = λ room start w s. (refl, refl);
    reads_room = λ room w s. (refl, refl);
    reads_session = λ token w s. (refl, refl);
    posts = λ endpoint id payload w s. (refl, refl);
  };
  puts_room = λ j w s. (refl, refl);
}

IsTallied-empty : IsTallied []
unfolding count_keys lookup
IsTallied-empty = record { unique = tt; tallied = λ p m e c. cc e; closed = λ p e c. refl }

-- The visitor, between two messages of the presenter.
serve_all-IsTallied_example : IsTallied (
    (serve_all services
      (says (record { connection_id = "p"; domain_name = "d"; stage = "s"; body = "poll_open" })
        ∷ visitor)
      ([], presenter ∷ [], pos 3)).0)
unfolding has_hash
serve_all-IsTallied_example =
    serve_all-IsTallied services (λ w. w.0) (λ w. false) polls-IsLawful services-IsSeparate _
      ([], presenter ∷ [], pos 3) (refl, (tt, (refl, (refl, (refl, (tt, tt)))))) IsTallied-empty
      refl

found_in-Among :
    (id : String) (cs : List Connection) (i : Connection) → found_in id cs ≡ some i → Among i cs
found_in-Among id [] i e = cc e
found_in-Among id (c ∷ cs) i e = elim (Bool-cases (c.connection_id == id)) [
  | inl y ↦ inl (ground arith)
  | inr n ↦ inr (found_in-Among id cs i (ground arith))
]

services-IsConnectionTable : IsConnectionTable services.connections (λ i w. Among i w.1)
services-IsConnectionTable = record {
  found_stored = λ room id w i e. found_in-Among id w.1 i (cc e);
  put_stores = λ i j w s. go s;
  marshals_role = λ conn read i m u. cc (m, u);
}
  where
    go : {A B : Type 0} → A ⊎ B → B ⊎ A
    go (inl a) = inr a
    go (inr b) = inl b

serve_all-Unprivileged_example :
    OnlyViewers services.connections
      (λ i w. Among i w.1)
      (serve_all services visitor ([], [], pos 3))
    × ((serve_all services visitor ([], [], pos 3)).2 ≡ pos 3)
unfolding is_valid ◌>>=◌ wrapping
serve_all-Unprivileged_example =
    serve_all-Unprivileged services (λ i w. Among i w.1) (λ w. w.2 ≡ pos 3)
      services-IsConnectionTable
      (record {
        gets = λ room id. ((λ w i s. s), record { at = λ w q. q });
        deletes = λ room id. ((λ w i s. s), record { at = λ w q. q });
        queries = λ room start. ((λ w i s. s), record { at = λ w q. q });
        counts = λ room start. ((λ w i s. s), record { at = λ w q. q });
        reads_room = λ room. ((λ w i s. s), record { at = λ w q. q });
        reads_session = λ token. ((λ w i s. s), record { at = λ w q. q });
        posts = λ endpoint id payload. ((λ w i s. s), record { at = λ w q. q });
      })
      (record {
        clock = ((λ w i s. s), record { at = λ w q. q });
        gets = λ k. ((λ w i s. s), record { at = λ w q. q });
        queries = λ pid prefix. ((λ w i s. s), record { at = λ w q. q });
        transacts = λ ws. ((λ w i s. s), record { at = λ w q. q });
      })
      (λ i. record { at = λ w q. q }) visitor ([], [], pos 3)
      (record { at = λ w p. refl }, (tt, (tt, (tt, (tt, tt))))) (λ i s. absurd s) refl

polls-IsAvailable : IsAvailable polls (λ w. w.0)
polls-IsAvailable = record {
  put_item_answers = λ k r c t.
      let a = memory-IsAvailable.put_item_answers k r c t in
      record { result = λ w. a.result w.0; after = λ w. a.after w.0 };
  get_item_answers = λ k t. record { result = λ w e. rw e; after = λ w e. e };
  query_answers = λ pid prefix t. record { result = λ w e. rw e; after = λ w e. e };
  transact_answers = λ ws t d.
      let a = memory-IsAvailable.transact_answers ws t d in
      record { result = λ w. a.result w.0; after = λ w. a.after w.0 };
  transact_rejects = λ ws t d.
      let a = memory-IsAvailable.transact_rejects ws t d in
      record { result = λ w. a.result w.0; after = λ w. a.after w.0 };
  clock = 1000;
  now_answers = λ t. record { result = λ w e. refl; after = λ w e. e };
  marshal_meta = λ m. refl;
  unmarshal_meta = λ m. refl;
}

abbrev poll : MetaRecord
poll = record {
  poll_id = "p";
  conn_id = "META";
  options = "a" ∷ "b" ∷ [];
  max_choices = pos 1;
  votes = ("a", pos 0) ∷ ("b", pos 0) ∷ [];
  ttl = 0;
}

abbrev vote_request : Request
vote_request = record { connection_id = "v"; domain_name = "d"; stage = "prod"; body = "poll_vote" }

handle-Becomes_example :
    Becomes
      (λ w. w.0)
      (handle (message_handler services) vote_request)
      ((meta_key "p", meta poll) ∷ [])
      (ballot_effect poll 1000 "v" (message "poll_vote") ((meta_key "p", meta poll) ∷ []))
unfolding lookup polls-IsAvailable
handle-Becomes_example =
    handle-Becomes services (λ w. w.0) polls-IsAvailable services-IsSeparate vote_request
      (message "poll_vote") poll ((meta_key "p", meta poll) ∷ []) refl (inl refl) refl
