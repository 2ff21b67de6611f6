-- ===== src/Presenter/Connection/Frames.antt =====
-- presenter/internal/connection: what its operations keep, for whatever the calls on the tables keep.
use cli_demo.Prelude.{ℕ, zero, suc, String, List, [], ◌∷◌, Option, none, some}
use cli_demo.Effect.{Eff}
use cli_demo.Effect.Keeps.{Keeps, keeps_rules, Keeps-bind}
use cli_demo.Presenter.Connection.{
  Connection, Client, Store, SessionStore, found, get, delete, put, put_stamped, append_items,
  next_page, query_pages, query_by_room, next_count, count_pages, count_by_room, is_valid,
}

-- The calls that read the table of connections, or delete a row of it.
pub record IsFramed {W I K : Type 0} (client : Client W I K) (P : W → Type 0) : Type 0 where
  pub gets : (room id : String) → Keeps P (client.get_item room id)
  pub deletes : (room id : String) → Keeps P (client.delete_item room id)
  pub queries : (room : String) (start : Option K) → Keeps P (client.query room start)
  pub counts : (room : String) (start : Option K) → Keeps P (client.query_count room start)

module _ {W I K : Type 0} (store : Store W I K) (P : W → Type 0)
    (frame : IsFramed store.client P) where
  open frame use {gets, deletes, queries, counts}

  found-keeps : (o : Option I) → Keeps P (found store o)
  unfolding found
  found-keeps none = search keeps_rules
  found-keeps (some i) = search keeps_rules

  pub get-keeps : (room id : String) → Keeps P (get store room id)
  unfolding get
  get-keeps room id = search (keeps_rules, gets, found-keeps)

  pub delete-keeps : (room id : String) → Keeps P (delete store room id)
  unfolding delete
  delete-keeps room id = search (keeps_rules, deletes)

  append_items-keeps :
      (conns : List Connection) (is : List I) → Keeps P (append_items store conns is)
  unfolding append_items
  append_items-keeps conns [] = search keeps_rules
  append_items-keeps conns (i ∷ is) =
      Keeps-bind _ _ (search keeps_rules) (λ conn. append_items-keeps _ is)

  next_page-keeps :
      (o : Option K) (conns : List Connection) (again : Option K → Eff W (Option (List Connection)))
      → ((k : Option K) → Keeps P (again k))
      → Keeps P (next_page store o conns again)
  unfolding next_page
  next_page-keeps none conns again k = search keeps_rules
  next_page-keeps (some key) conns again k = k (some key)

  query_pages-keeps :
      (fuel : ℕ) (room : String) (start : Option K) (conns : List Connection)
      → Keeps P (query_pages store fuel room start conns)
  unfolding query_pages
  query_pages-keeps zero room start conns = search keeps_rules
  query_pages-keeps (suc fuel) room start conns =
      search
        (keeps_rules, queries, append_items-keeps, next_page-keeps, query_pages-keeps fuel room)

  pub query_by_room-keeps : (fuel : ℕ) (room : String) → Keeps P (query_by_room store fuel room)
  unfolding query_by_room
  query_by_room-keeps fuel room = query_pages-keeps fuel room none []

  next_count-keeps :
      (o : Option K) (total : ℕ) (again : Option K → Eff W (Option ℕ))
      → ((k : Option K) → Keeps P (again k))
      → Keeps P (next_count store o total again)
  unfolding next_count
  next_count-keeps none total again k = search keeps_rules
  next_count-keeps (some key) total again k = k (some key)

  count_pages-keeps :
      (fuel : ℕ) (room : String) (start : Option K) (total : ℕ)
      → Keeps P (count_pages store fuel room start total)
  unfolding count_pages
  count_pages-keeps zero room start total = search keeps_rules
  count_pages-keeps (suc fuel) room start total =
      search (keeps_rules, counts, next_count-keeps, count_pages-keeps fuel room)

  pub count_by_room-keeps : (fuel : ℕ) (room : String) → Keeps P (count_by_room store fuel room)
  unfolding count_by_room
  count_by_room-keeps fuel room = count_pages-keeps fuel room none 0

module _ {W I K : Type 0} (store : Store W I K) (P : W → Type 0)
    (puts : (i : I) → Keeps P (store.client.put_item i)) where
  put_stamped-keeps : (conn : Connection) → Keeps P (put_stamped store conn)
  unfolding put_stamped
  put_stamped-keeps conn = search (keeps_rules, puts)

  pub put-keeps : (conn : Connection) → Keeps P (put store conn)
  unfolding put
  put-keeps conn = record { at = λ w h. (put_stamped-keeps _).at w h }

module _ {W I : Type 0} (sessions : SessionStore W I) (P : W → Type 0)
    (reads : (token : String) → Keeps P (sessions.get_item token)) where
  pub is_valid-keeps : (token : String) → Keeps P (is_valid sessions token)
  unfolding is_valid
  is_valid-keeps token = search (keeps_rules, reads)
