-- ===== src/Presenter/Connection.antt =====
-- presenter/internal/connection and presenter/internal/session: the table of open connections, read
-- page by page, and the tokens of presenters.
pub mod Pages
pub mod Frames
pub mod Viewers
use cli_demo.Prelude.{
  ℕ, zero, suc, ◌+◌, ◌*◌, String, Bool, true, false, List, [], ◌∷◌, ◌++◌, Option, none, some, ◌==◌,
  string_eq, if◌then◌else◌,
}
use cli_demo.GoError.{sentinel, connection_not_found}
use cli_demo.Effect.{Result, ok, err, Eff, pure, raise, lift, ◌>>=◌, ◌>>◌, wrapping}

pub record Connection : Type 0 where
  pub room : String
  pub connection_id : String
  pub role : String
  pub ttl : ℕ

-- One page of a query: its items, their number, and where the next page starts. The source takes an
-- empty last key for none.
pub record Page (I K : Type 0) : Type 0 where
  pub items : List I
  pub count : ℕ
  pub last_key : Option K

-- DynamoDBAPI, for the table of connections: `query` is given the start key of the page.
pub record Client (W I K : Type 0) : Type 0 where
  pub put_item : I → Eff W (Unit {0})
  pub get_item : String → String → Eff W (Option I)
  pub delete_item : String → String → Eff W (Unit {0})
  pub query : String → Option K → Eff W (Page I K)
  pub query_count : String → Option K → Eff W (Page I K)

pub record Store (W I K : Type 0) : Type 0 where
  pub client : Client W I K
  -- seconds since 1970
  pub now : W → ℕ
  pub marshal_map : Connection → Result I
  pub unmarshal_map : I → Result Connection

-- 24 * time.Hour
abbrev pub connection_ttl : ℕ
connection_ttl = 24 * 3600

module _ {W I K : Type 0} (store : Store W I K) where
  open store use {client, now, marshal_map, unmarshal_map}

  put_stamped : Connection → Eff W (Unit {0})
  put_stamped conn = do
    item ← wrapping "marshal connection" (lift (marshal_map conn))
    wrapping "put item" (client.put_item item)

  unfoldable pub put : Connection → Eff W (Unit {0})
  unfolding put_stamped
  put conn w = put_stamped (record conn { ttl = now w + connection_ttl }) w

  found : Option I → Eff W Connection
  found none = raise (sentinel connection_not_found)
  found (some i) = wrapping "unmarshal connection" (lift (unmarshal_map i))

  unfoldable pub get : String → String → Eff W Connection
  unfolding found
  get room id = do item ← wrapping "get item" (client.get_item room id); found item

  unfoldable pub delete : String → String → Eff W (Unit {0})
  delete room id = wrapping "delete item" (client.delete_item room id)

  -- The items of a page, appended to those of the pages before it.
  append_items : List Connection → List I → Eff W (List Connection)
  append_items conns [] = pure conns
  append_items conns (i ∷ is) = do
    conn ← wrapping "unmarshal connection" (lift (unmarshal_map i))
    append_items (conns ++ conn ∷ []) is

  next_page :
      Option K
      → List Connection
      → (Option K → Eff W (Option (List Connection)))
      → Eff W (Option (List Connection))
  next_page none conns again = pure (some conns)
  next_page (some k) conns again = again (some k)

  -- The loop over the pages, on fuel: `none` means that the fuel ran out.
  unfoldable pub query_pages :
      ℕ → String → Option K → List Connection → Eff W (Option (List Connection))
  unfolding append_items next_page
  query_pages zero room start conns = pure none
  query_pages (suc fuel) room start conns = do
    out ← wrapping "query by room" (client.query room start)
    all ← append_items conns out.items
    next_page out.last_key all (λ k. query_pages fuel room k all)

  unfoldable pub query_by_room : ℕ → String → Eff W (Option (List Connection))
  query_by_room fuel room = query_pages fuel room none []

  next_count : Option K → ℕ → (Option K → Eff W (Option ℕ)) → Eff W (Option ℕ)
  next_count none total again = pure (some total)
  next_count (some k) total again = again (some k)

  unfoldable pub count_pages : ℕ → String → Option K → ℕ → Eff W (Option ℕ)
  unfolding next_count
  count_pages zero room start total = pure none
  count_pages (suc fuel) room start total = do
    out ← wrapping "count by room" (client.query_count room start)
    next_count out.last_key (total + out.count) (λ k. count_pages fuel room k (total + out.count))

  unfoldable pub count_by_room : ℕ → String → Eff W (Option ℕ)
  count_by_room fuel room = count_pages fuel room none 0

-- The `status` attribute of a session item: missing, of another type, or a string.
pub data Status : Type 0 where
  missing other_type : Status
  text : String → Status

-- SessionStore, and session.Store: the calls on the table of sessions. `marshal_map` is given the
-- token and the status.
pub record SessionStore (W I : Type 0) : Type 0 where
  pub get_item : String → Eff W (Option I)
  pub put_item : I → Eff W (Unit {0})
  pub marshal_map : String → String → Result I
  pub status : I → Status

module _ {W I : Type 0} (sessions : SessionStore W I) where
  open sessions use {get_item, put_item, marshal_map, status}

  is_valid_status : Status → Bool
  is_valid_status missing = false
  is_valid_status other_type = false
  is_valid_status (text s) = s == "valid"

  is_valid_item : Option I → Bool
  unfolding is_valid_status
  is_valid_item none = false
  is_valid_item (some i) = is_valid_status (status i)

  unfoldable pub is_valid : String → Eff W Bool
  unfolding is_valid_item
  is_valid token =
      if token == ""
      then pure false
      else do item ← wrapping "get session" (get_item token); pure (is_valid_item item)

  unfoldable pub create : String → Eff W (Unit {0})
  create token = do
    av ← wrapping "marshal session" (lift (marshal_map token "valid"))
    wrapping "put session" (put_item av)
