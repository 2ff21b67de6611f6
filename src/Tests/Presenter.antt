-- ===== src/Tests/Presenter.antt =====
-- Instances of the presenter's theorems on connections, broadcasts, rooms and slides.
use cli_demo.Prelude.{
  ℕ, String, ◌≡◌, refl, Bool, true, false, List, [], ◌∷◌, Option, none, some, ◌==◌, ◌||◌, string_eq,
  arith,
}
use cli_demo.Prelude.Int.{pos}
use cli_demo.Prelude.Dict.{beq_refl}
use cli_demo.GoError.{api_error}
use cli_demo.Effect.{Result, ok, err}
use cli_demo.Effect.Keeps.{Keeps}
use cli_demo.Effect.Ends.{Ends, Post, Any}
use cli_demo.Presenter.Connection
use cli_demo.Presenter.Connection.{Page, query_by_room, count_by_room}
use cli_demo.Presenter.Connection.Pages.{
  Chain, last, more, query_by_room-Chain, count_by_room-Chain,
}
use cli_demo.Presenter.Broadcast.{Broadcaster, send}
use cli_demo.Presenter.Broadcast.Delivery.{IsRecorded, NotGone, Reached, send-Reached, send-spares}
use cli_demo.Presenter.Slides.{Handler, handle_slide_sync}
use cli_demo.Presenter.Visits.{ConnectHandler, Request}
use cli_demo.Presenter.Slides.Access.{handle_slide_sync-Ordered}

abbrev viewer : String → Connection.Connection
viewer id = record { room = "default"; connection_id = id; role = "viewer"; ttl = 0 }

-- Two pages of connections; the key of the second is 1.
abbrev page : Option ℕ → Page String ℕ
page none = record { items = "a" ∷ "b" ∷ []; count = 2; last_key = some 1 }
page (some k) = record { items = "c" ∷ []; count = 1; last_key = none }

abbrev count_page : Option ℕ → Page String ℕ
count_page none = record { items = []; count = 2; last_key = some 1 }
count_page (some k) = record { items = []; count = 1; last_key = none }

abbrev paged : Connection.Store (Unit {0}) String ℕ
paged = record {
  client = record {
    put_item = λ i w. (ok tt, w);
    get_item = λ room id w. (ok (some id), w);
    delete_item = λ room id w. (ok tt, w);
    query = λ room start w. (ok (page start), w);
    query_count = λ room start w. (ok (count_page start), w);
  };
  now = λ w. 0;
  marshal_map = λ c. ok c.connection_id;
  unmarshal_map = λ i. ok (viewer i);
}

two_pages : Chain paged "default" tt none (("a" ∷ "b" ∷ []) ∷ ("c" ∷ []) ∷ [])
two_pages = more ("a" ∷ "b" ∷ []) 1 _ refl refl (last ("c" ∷ []) refl refl)

query_by_room-Chain_example :
    query_by_room paged 2 "default" tt ≡ (ok (some (viewer "a" ∷ viewer "b" ∷ viewer "c" ∷ [])), tt)
query_by_room-Chain_example =
    query_by_room-Chain paged "default" tt viewer (λ i. refl) 2 two_pages (omega arith)

count_by_room-Chain_example : count_by_room paged 2 "default" tt ≡ (ok (some 3), tt)
count_by_room-Chain_example = count_by_room-Chain paged "default" tt 2 two_pages (omega arith)

-- The world is the list of the connections that were posted to; b is gone.
abbrev posted_to : String → List String → Bool
posted_to s [] = false
posted_to s (r ∷ w) = r == s || posted_to s w

abbrev post_answer : Bool → Result (Unit {0})
post_answer true = err (api_error "GoneException")
post_answer false = ok tt

abbrev members : List Connection.Connection
members = viewer "a" ∷ viewer "b" ∷ viewer "c" ∷ []

abbrev caster : Broadcaster (List String)
caster = record {
  post_to_connection = λ id payload w. (post_answer (id == "b"), id ∷ w);
  query_by_room = λ room w. (ok members, w);
  delete = λ room id w. (ok tt, w);
}

abbrev PostedTo : String → List String → Type 0
PostedTo s w = posted_to s w ≡ true

or_true : (b : Bool) → (b || true) ≡ true
or_true true = refl
or_true false = refl

caster-IsRecorded : IsRecorded caster PostedTo
caster-IsRecorded = record {
  post_records = λ id payload. record { at = λ w p. go id (id == "b") w };
  post_keeps = λ seen id payload. record { at = λ w h. rw h (or_true (id == seen)) };
  delete_keeps = λ seen room id. record { at = λ w h. h };
}
  where
    go :
        (id : String) (b : Bool) (w : List String)
        → Post (λ _. PostedTo id) (λ _. PostedTo id) (post_answer b) (id ∷ w)
    go id true w = rw (beq_refl id) refl
    go id false w = rw (beq_refl id) refl

send-Reached_example :
    Ends Any
      (send caster "default" "{}" "a")
      (λ _. Reached caster PostedTo caster-IsRecorded "a" members)
      NotGone
send-Reached_example =
    send-Reached caster PostedTo caster-IsRecorded "default" "{}" "a" members
      (record { at = λ w p. refl })

send-spares_example : Keeps (λ w. posted_to "a" w ≡ false) (send caster "default" "{}" "a")
send-spares_example =
    send-spares caster (λ w. posted_to "a" w ≡ false) "a"
      (λ id payload other. record { at = λ w h. rw (other, h) refl })
      (λ room id other. record { at = λ w h. h }) "default" "{}" (record { at = λ w h. h })

-- The world says whether the page was saved, and whether it was shown.
abbrev slides : String → Handler (Bool × Bool)
slides role = record {
  get = λ room id w.
      (ok (some (record { room = room; connection_id = id; role = role; ttl = 0 })), w);
  send = λ room payload id w. (ok tt, (w.0, true));
  put_state = λ room page w. (ok tt, (true, w.1));
  count_by_room = λ room w. (ok 1, w);
  send_to_one = λ room id payload w. (ok tt, w);
  json_marshal = λ m. ok "{}";
}

handle_slide_sync-Ordered_example :
    Ends
      (λ w. ¬ (w.1 ≡ true))
      (handle_slide_sync (slides "presenter") "default" "p" (pos 3))
      (λ _ w. w.1 ≡ true → w.0 ≡ true)
      (λ _ w. w.1 ≡ true → w.0 ≡ true)
handle_slide_sync-Ordered_example =
    handle_slide_sync-Ordered (slides "presenter") "default" "p" (pos 3) (λ w. w.1 ≡ true)
      (λ w. w.0 ≡ true) (record { at = λ w p. p }) (record { at = λ w p. refl })
      (λ payload. record { at = λ w p. p })

-- The world is whether a presenter was stored; no token is valid.
abbrev stores_presenter : Bool → Bool → Bool
stores_presenter true b = true
stores_presenter false b = b

abbrev visits : ConnectHandler Bool
visits = record {
  put = λ conn b. (ok tt, stores_presenter (conn.role == "presenter") b);
  delete = λ room id b. (ok tt, b);
  count_by_room = λ room b. (ok 1, b);
  is_valid = λ token b. (ok false, b);
  new_broadcaster = λ domain stage room payload exclude b. (ok tt, b);
  json_marshal = λ n. ok "{}";
  extract_cookie = λ header name. header;
}

abbrev visit : Request
visit = record {
  connection_id = "v";
  domain_name = "d";
  stage = "prod";
  headers = ("Cookie", "slide_auth=guess") ∷ [];
}
