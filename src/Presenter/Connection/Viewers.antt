-- ===== src/Presenter/Connection/Viewers.antt =====
-- presenter/internal/connection: the roles in the table of connections.
use cli_demo.Prelude.{
  String, ◌≡◌, refl, sym, ap, ◌∙◌, false, Option, none, some, ◌==◌, string_eq, ◌⊎◌, inl, inr,
}
use cli_demo.Effect.{Result, ok, err, Eff}
use cli_demo.Effect.Keeps.{Keeps, Keeps-wrapping, Keeps-bind-wrapping_lift}
use cli_demo.Effect.Ends.{Ends, Post, AnyOf, Ends-bind, Ends-wrapping, Ends-raise, Ends-lift_equal}
use cli_demo.Presenter.Connection.{Connection, Store, found, get, put, put_stamped}

-- No call but the put of a connection's item stores an item.
abbrev pub StoresNothing : {W I A : Type 0} → (I → W → Type 0) → Eff W A → Type 0
StoresNothing {W} {I} Stored m = (w : W) (i : I) → Stored i (m w).1 → Stored i w

-- The table of connections: what is found was stored, and a put stores its item only. An item has the
-- role of the connection that it was made from.
pub record IsConnectionTable {W I K : Type 0} (store : Store W I K) (Stored : I → W → Type 0)
    : Type 0 where
  pub found_stored :
      (room id : String) (w : W) (i : I)
      → (store.client.get_item room id w).0 ≡ ok (some i)
      → Stored i w
  pub put_stores : (i j : I) (w : W) → Stored j (store.client.put_item i w).1 → Stored j w ⊎ (j ≡ i)
  pub marshals_role :
      (conn read : Connection) (i : I)
      → store.marshal_map conn ≡ ok i
      → store.unmarshal_map i ≡ ok read
      → read.role ≡ conn.role

module _ {W I K : Type 0} (store : Store W I K) (Stored : I → W → Type 0) where
  -- The item of a connection that is not a presenter's, if it can be read.
  abbrev pub IsViewerItem : I → Type 0
  IsViewerItem i =
      (conn : Connection) → store.unmarshal_map i ≡ ok conn → (conn.role == "presenter") ≡ false

  -- Every stored connection is a viewer's.
  abbrev pub OnlyViewers : W → Type 0
  OnlyViewers w = (i : I) → Stored i w → IsViewerItem i

  pub StoresNothing-OnlyViewers :
      {A : Type 0} (m : Eff W A) → StoresNothing Stored m → Keeps OnlyViewers m
  StoresNothing-OnlyViewers m l = record { at = λ w h i s. h i (l w i s) }

  module _ (law : IsConnectionTable store Stored) where
    IsViewerFound : Option I → Type 0
    IsViewerFound none = Unit
    IsViewerFound (some i) = IsViewerItem i

    get_item-OnlyViewers :
        (room id : String)
        → Ends OnlyViewers (store.client.get_item room id) (λ o w. IsViewerFound o) AnyOf
    unfolding IsViewerFound
    get_item-OnlyViewers room id = record {
      at = λ w h. go w (store.client.get_item room id w).0 refl h;
    }
      where
        go :
            (w : W) (r : Result (Option I))
            → (store.client.get_item room id w).0 ≡ r
            → OnlyViewers w
            → Post (λ o w'. IsViewerFound o) AnyOf r (store.client.get_item room id w).1
        go w (ok none) e h = tt
        go w (ok (some i)) e h = h i (law.found_stored room id w i e)
        go w (err x) e h = tt

    found-IsViewer :
        (o : Option I)
        → Ends
            (λ w. IsViewerFound o)
            (found store o)
            (λ conn w. (conn.role == "presenter") ≡ false)
            AnyOf
    unfolding found IsViewerFound
    found-IsViewer none = Ends-raise _ (λ w h. tt)
    found-IsViewer (some i) =
        Ends-wrapping _ _ (Ends-lift_equal _ (λ conn e w h. h conn e) (λ e w h. tt))

    -- Where every stored connection is a viewer's, Get finds no presenter.
    pub get-OnlyViewers :
        (room id : String)
        → Ends OnlyViewers (get store room id) (λ conn w. (conn.role == "presenter") ≡ false) AnyOf
    unfolding get
    get-OnlyViewers room id =
        Ends-bind _ _ (λ o w. IsViewerFound o) (Ends-wrapping _ _ (get_item-OnlyViewers room id))
          found-IsViewer

    put_item-OnlyViewers :
        (conn : Connection) (i : I)
        → (conn.role == "presenter") ≡ false
        → store.marshal_map conn ≡ ok i
        → Keeps OnlyViewers (store.client.put_item i)
    put_item-OnlyViewers conn i viewer m = record {
      at = λ w h j s. go j (h j) (law.put_stores i j w s);
    }
      where
        go : {w : W} (j : I) → (Stored j w → IsViewerItem j) → Stored j w ⊎ (j ≡ i) → IsViewerItem j
        go j h (inl s) read u = h s read u
        go j h (inr e) read u =
            rw (law.marshals_role conn read i m (ap store.unmarshal_map (sym e) ∙ u), viewer) refl

    put_stamped-OnlyViewers :
        (conn : Connection)
        → (conn.role == "presenter") ≡ false
        → Keeps OnlyViewers (put_stamped store conn)
    unfolding put_stamped
    put_stamped-OnlyViewers conn viewer =
        Keeps-bind-wrapping_lift _ _ _
          (λ i m. Keeps-wrapping _ _ (put_item-OnlyViewers conn i viewer m))

    -- Put of a viewer's connection keeps every stored connection a viewer's.
    pub put-OnlyViewers :
        (conn : Connection)
        → (conn.role == "presenter") ≡ false
        → Keeps OnlyViewers (put store conn)
    unfolding put
    put-OnlyViewers conn viewer = record { at = λ w h. (put_stamped-OnlyViewers _ viewer).at w h }
