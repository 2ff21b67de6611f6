-- ===== src/Presenter/Connection/Pages.antt =====
-- presenter/internal/connection: QueryByRoom and CountByRoom over the pages of a room.
use cli_demo.Prelude.{
  ℕ, zero, suc, ◌+◌, ◌≤◌, String, ◌≡◌, refl, sym, ap, ◌∙◌, List, [], ◌∷◌, ◌++◌, map, append_assoc,
  append-nil, Option, none, some, length, length-append, arith,
}
use cli_demo.Effect.{ok, pure, lift, ◌>>=◌, wrapping}
use cli_demo.Presenter.Connection.{
  Connection, Store, append_items, next_page, query_pages, query_by_room, next_count, count_pages,
  count_by_room,
}

abbrev pub concat {ℓ} : {A : Type ℓ} → List (List A) → List A
concat [] = []
concat (x ∷ xs) = x ++ concat xs

too_long : {n : ℕ} → ¬ (suc n ≤ 0)
too_long l = omega arith

map-append : {A B : Type 0} (f : A → B) (xs ys : List A) → map f (xs ++ ys) ≡ map f xs ++ map f ys
map-append f [] ys = refl
map-append f (x ∷ xs) ys = ap (λ zs. f x ∷ zs) (map-append f xs ys)

module _ {W I K : Type 0} (store : Store W I K) (room : String) (w : W) where
  -- From the start key on, the queries of the room in `w` give these pages, and the counting queries
  -- their sizes; a query changes nothing.
  pub data Chain : Option K → List (List I) → Type 0 where
    last :
        {start : Option K} (is : List I)
        → store.client.query room start w
          ≡ (ok (record { items = is; count = length is; last_key = none }), w)
        → store.client.query_count room start w
          ≡ (ok (record { items = []; count = length is; last_key = none }), w)
        → Chain start (is ∷ [])
    more :
        {start : Option K} (is : List I) (k : K) (rest : List (List I))
        → store.client.query room start w
          ≡ (ok (record { items = is; count = length is; last_key = some k }), w)
        → store.client.query_count room start w
          ≡ (ok (record { items = []; count = length is; last_key = some k }), w)
        → Chain (some k) rest
        → Chain start (is ∷ rest)

  module _ (conn : I → Connection)
      (unmarshals : (i : I) → store.unmarshal_map i ≡ ok (conn i)) where
    append_items-conn :
        (conns : List Connection) (is : List I)
        → append_items store conns is w ≡ (ok (conns ++ map conn is), w)
    unfolding append_items ◌>>=◌ pure wrapping lift
    append_items-conn conns [] = ap (λ cs. (ok cs, w)) (sym (append-nil conns))
    append_items-conn conns (i ∷ is) = rw (unmarshals i) (
        append_items-conn (conns ++ conn i ∷ []) is
        ∙ ap (λ cs. (ok cs, w)) (append_assoc conns (conn i ∷ []) (map conn is)))

    query_pages-Chain :
        {start : Option K} {pages : List (List I)} (fuel : ℕ) (conns : List Connection)
        → Chain start pages
        → length pages ≤ fuel
        → query_pages store fuel room start conns w
          ≡ (ok (some (conns ++ map conn (concat pages))), w)
    unfolding query_pages ◌>>=◌ wrapping pure next_page
    query_pages-Chain zero conns (last is q c) l = absurd (too_long l)
    query_pages-Chain zero conns (more is k rest q c chain) l = absurd (too_long l)
    query_pages-Chain (suc fuel) conns (last is q c) l =
        rw (q, append_items-conn conns is, append-nil is) refl
    query_pages-Chain {start = start} (suc fuel) conns (more is k rest q c chain) l =
        rw (q, append_items-conn conns is)
          (query_pages-Chain {start = some k} fuel (conns ++ map conn is) chain (omega (arith, l))
            ∙ ap (λ cs. (ok (some cs), w))
                (append_assoc conns (map conn is) (map conn (concat rest))
                  ∙ ap (λ cs. conns ++ cs) (sym (map-append conn is (concat rest)))))

    -- With fuel for every page, QueryByRoom returns the connections of all pages of the
    -- room, in order and each once, where the queries give a chain of pages, change nothing,
    -- and every item unmarshals.
    pub query_by_room-Chain :
        {pages : List (List I)} (fuel : ℕ)
        → Chain none pages
        → length pages ≤ fuel
        → query_by_room store fuel room w ≡ (ok (some (map conn (concat pages))), w)
    unfolding query_by_room
    query_by_room-Chain fuel chain l = query_pages-Chain fuel [] chain l

  count_pages-Chain :
      {start : Option K} {pages : List (List I)} (fuel total : ℕ)
      → Chain start pages
      → length pages ≤ fuel
      → count_pages store fuel room start total w ≡ (ok (some (total + length (concat pages))), w)
  unfolding count_pages ◌>>=◌ wrapping pure next_count
  count_pages-Chain zero total (last is q c) l = absurd (too_long l)
  count_pages-Chain zero total (more is k rest q c chain) l = absurd (too_long l)
  count_pages-Chain (suc fuel) total (last is q c) l = rw (c, append-nil is) refl
  count_pages-Chain {start = start} (suc fuel) total (more is k rest q c chain) l =
      let e : total + length is + length (concat rest) ≡ total + length (is ++ concat rest) =
        omega (arith, length-append is (concat rest)) in
      rw c (
        count_pages-Chain {start = some k} fuel (total + length is) chain (omega (arith, l))
        ∙ ap (λ n. (ok (some n), w)) e)

  -- With fuel for every page, CountByRoom returns the number of the items that QueryByRoom
  -- reads, where the counting queries give a chain of pages with the sizes of the pages of
  -- items, and change nothing.
  pub count_by_room-Chain :
      {pages : List (List I)} (fuel : ℕ)
      → Chain none pages
      → length pages ≤ fuel
      → count_by_room store fuel room w ≡ (ok (some (length (concat pages))), w)
  unfolding count_by_room
  count_by_room-Chain {pages} fuel chain l =
      count_pages-Chain fuel 0 chain l ∙ ap (λ n. (ok (some n), w)) (omega arith)
