-- ===== src/Presenter/Poll/Rows.antt =====
-- presenter/internal/poll/store.go and get.go: the rows of the poll_votes table, the writes that the
-- store sends, and the DynamoDB client as an interface: its calls, and what their documentation
-- says that they do to the contents of the table.
use cli_demo.Prelude.{
  ℕ, String, ◌≡◌, ◌↔◌, Bool, true, false, ◌&&◌, List, [], ◌∷◌, Option, none, some, arith, eq_iff,
  Eq, ◌==◌, string_eq,
}
use cli_demo.Prelude.Int.{ℤ, pos, ◌+ℤ◌, ◌-ℤ◌}
use cli_demo.Prelude.Dict.{Dict, lookup, without, insert}
use cli_demo.Effect.{Eff}
use cli_demo.Effect.Commit.{Commit}

-- The META record of a poll.
pub record MetaRecord : Type 0 where
  pub poll_id : String
  pub conn_id : String
  pub options : List String
  pub max_choices : ℤ
  pub votes : Dict String ℤ
  pub ttl : ℕ

-- A row without its key attributes: a META record, or a ballot with its time to live.
pub data Row : Type 0 where
  meta : MetaRecord → Row
  ballot : ℕ → Row

pub record Key : Type 0 where
  pub poll_id : String
  pub connection_id : String

abbrev key_beq : Key → Key → Bool
key_beq a b = a.poll_id == b.poll_id && a.connection_id == b.connection_id

pub key_beq_iff : (a b : Key) → (key_beq a b ≡ true) ↔ (a ≡ b)
key_beq_iff a b = ground (arith, eq_iff a.poll_id b.poll_id, eq_iff a.connection_id b.connection_id)

instance abbrev pub key_eq : Eq Key
key_eq = record { beq = key_beq; beq_iff = key_beq_iff }

-- The condition expressions, on an attribute that every row has.
pub data Condition : Type 0 where
  attribute_exists attribute_not_exists : Condition

-- `SET votes.#choice = if_not_exists(votes.#choice, :zero) ± :one`
pub data Action : Type 0 where
  plus_one minus_one : String → Action

pub data Write : Type 0 where
  put : Key → Row → Condition → Write
  delete : Key → Condition → Write
  update : Key → List Action → Write

abbrev pub Table : Type 0
Table = Dict Key Row

-- votes[choice], 0 if it is missing
unfoldable pub tally : String → Dict String ℤ → ℤ
tally c v = elim (lookup c v) [ none ↦ pos 0 | some n ↦ n ]

unfoldable pub act : Action → Dict String ℤ → Dict String ℤ
act (plus_one c) v = insert c (tally c v +ℤ pos 1) v
act (minus_one c) v = insert c (tally c v -ℤ pos 1) v

unfoldable pub act_all : List Action → Dict String ℤ → Dict String ℤ
act_all [] v = v
act_all (a ∷ as') v = act_all as' (act a v)

abbrev pub holds_at : Condition → Option Row → Bool
holds_at attribute_exists none = false
holds_at attribute_exists (some r) = true
holds_at attribute_not_exists none = true
holds_at attribute_not_exists (some r) = false

abbrev pub has_votes : Option Row → Bool
has_votes none = false
has_votes (some (meta m)) = true
has_votes (some (ballot n)) = false

-- Whether a write is accepted: its condition, and for an update the path that it sets.
unfoldable pub holds : Table → Write → Bool
holds t (put k r c) = holds_at c (lookup k t)
holds t (delete k c) = holds_at c (lookup k t)
holds t (update k acts) = has_votes (lookup k t)

unfoldable pub all_hold : Table → List Write → Bool
all_hold t [] = true
all_hold t (w ∷ ws) = holds t w && all_hold t ws

abbrev update_row : Key → List Action → Option Row → Table → Table
update_row k acts none t = t
update_row k acts (some (meta m)) t = insert k (meta (record m { votes = act_all acts m.votes })) t
update_row k acts (some (ballot n)) t = t

unfoldable pub apply_write : Write → Table → Table
apply_write (put k r c) t = insert k r t
apply_write (delete k c) t = without k t
apply_write (update k acts) t = update_row k acts (lookup k t) t

unfoldable pub apply_all : List Write → Table → Table
apply_all [] t = t
apply_all (w ∷ ws) t = apply_all ws (apply_write w t)

-- The attributes of an item that a query returns.
pub data Attribute : Type 0 where
  text_value : String → Attribute
  other_value : Attribute

pub record Client (W : Type 0) : Type 0 where
  pub put_item : Key → Row → Condition → Eff W (Unit {0})
  pub get_item : Key → Eff W (Option Row)
  -- the poll and the prefix of the sort keys
  pub query : String → String → Eff W (List (Dict String Attribute))
  pub transact_write_items : List Write → Eff W (Unit {0})

-- What is said of a call `m` where DynamoDB has deleted no row whose time to live is over, neither
-- before the call nor in it: `swept` says that it has deleted one.
abbrev pub Unswept : {W A : Type 0} → (W → Bool) → Eff W A → W → Type 0 → Type 0
Unswept swept m w X = swept (m w).1 ≡ false → (swept w ≡ false) × X

-- Until a row is deleted for its time to live, the contents of the table change by committed writes
-- only.
pub record IsDynamo {W : Type 0} (c : Client W) (table : W → Table) (swept : W → Bool)
    : Type 0 where
  pub put_item_commits :
      (k : Key) (r : Row) (cond : Condition) (w : W)
      → Unswept swept (c.put_item k r cond) w (
          Commit
            (table w)
            (table (c.put_item k r cond w).1)
            (all_hold (table w) (put k r cond ∷ []))
            (apply_all (put k r cond ∷ []) (table w))
            (c.put_item k r cond w).0)
  pub get_item_reads :
      (k : Key) (w : W) → Unswept swept (c.get_item k) w (table (c.get_item k w).1 ≡ table w)
  pub query_reads :
      (p prefix : String) (w : W)
      → Unswept swept (c.query p prefix) w (table (c.query p prefix w).1 ≡ table w)
  pub transact_commits :
      (ws : List Write) (w : W)
      → Unswept swept (c.transact_write_items ws) w (
          Commit
            (table w)
            (table (c.transact_write_items ws w).1)
            (all_hold (table w) ws)
            (apply_all ws (table w))
            (c.transact_write_items ws w).0)
