-- ===== src/Broker/Store/Rows.antt =====
-- broker/model/runner.go, and the DynamoDB client of broker/store as an interface: its calls, and what
-- their documentation says that they do to the runner table. An attribute with `omitempty` that is
-- empty is not stored, so `attribute_exists` of it is a test for a text that is not empty.
use cli_demo.Prelude.{
  ℕ, String, ◌≡◌, Bool, true, false, not, List, [], ◌∷◌, Option, none, some, ◌==◌, string_eq,
}
use cli_demo.Prelude.Dict.{Dict, lookup, insert, without}
use cli_demo.Effect.{Eff}
use cli_demo.Effect.Commit.{Commit}

pub record Runner : Type 0 where
  pub runner_id : String
  pub current_session_id : String
  pub idle_bucket : String
  pub private_url : String

abbrev pub is_idle : Runner → Bool
is_idle r = not (r.idle_bucket == "")

abbrev pub is_busy : Runner → Bool
is_busy r = not (r.current_session_id == "")

abbrev pub Table : Type 0
Table = Dict String Runner

-- The attributes that a row may have.
pub data Attribute : Type 0 where
  runner_id_attribute current_session_id_attribute idle_bucket_attribute : Attribute

-- A row has its key, and the others where they are not empty.
abbrev pub has : Attribute → Runner → Bool
has runner_id_attribute r = true
has current_session_id_attribute r = is_busy r
has idle_bucket_attribute r = is_idle r

-- Condition expressions.
pub data Condition : Type 0 where
  attribute_exists attribute_not_exists : Attribute → Condition

abbrev pub holds_at : Condition → Option Runner → Bool
holds_at (attribute_exists a) none = false
holds_at (attribute_exists a) (some r) = has a r
holds_at (attribute_not_exists a) none = true
holds_at (attribute_not_exists a) (some r) = not (has a r)

-- The parts of an update expression: SET with a value, and REMOVE.
pub data Action : Type 0 where
  set_value : Attribute → String → Action
  remove_value : Attribute → Action

abbrev pub with_value : Attribute → String → Runner → Runner
with_value runner_id_attribute v r = record r { runner_id = v }
with_value current_session_id_attribute v r = record r { current_session_id = v }
with_value idle_bucket_attribute v r = record r { idle_bucket = v }

abbrev pub act : Action → Runner → Runner
act (set_value a v) r = with_value a v r
act (remove_value a) r = with_value a "" r

abbrev pub act_all : List Action → Runner → Runner
act_all [] r = r
act_all (a ∷ as') r = act_all as' (act a r)

-- PutItem, UpdateItem and DeleteItem.
pub data Write : Type 0 where
  put : Runner → Condition → Write
  update : String → List Action → Condition → Write
  remove : String → Write

unfoldable pub accepts : Table → Write → Bool
accepts t (put r c) = holds_at c (lookup r.runner_id t)
accepts t (update id as' c) = holds_at c (lookup id t)
accepts t (remove id) = true

-- UpdateItem makes an item where there is none.
abbrev pub new_row : String → Runner
new_row id = record { runner_id = id; current_session_id = ""; idle_bucket = ""; private_url = "" }

abbrev pub update_row : String → List Action → Option Runner → Table → Table
update_row id as' none t = insert id (act_all as' (new_row id)) t
update_row id as' (some r) t = insert id (act_all as' r) t

unfoldable pub apply_write : Write → Table → Table
apply_write (put r c) t = insert r.runner_id r t
apply_write (update id as' c) t = update_row id as' (lookup id t) t
apply_write (remove id) t = without id t

-- `SET currentSessionId = :sid REMOVE idleBucket`
abbrev pub assignment : String → List Action
assignment sid =
    set_value current_session_id_attribute sid ∷ remove_value idle_bucket_attribute ∷ []

-- The writes of Register and of assignSession.
abbrev pub create : Runner → Write
create r = put r (attribute_not_exists runner_id_attribute)

abbrev pub assign : String → String → Write
assign id sid = update id (assignment sid) (attribute_exists idle_bucket_attribute)

abbrev pub absent : Option Runner → Bool
absent o = holds_at (attribute_not_exists runner_id_attribute) o

abbrev pub idle_row : Option Runner → Bool
idle_row o = holds_at (attribute_exists idle_bucket_attribute) o

abbrev pub assign_row : String → String → Option Runner → Table → Table
assign_row id sid o t = update_row id (assignment sid) o t

-- The client, over the items `I` that marshalling gives.
pub record Client (W I : Type 0) : Type 0 where
  pub put_item : I → Condition → Eff W (Unit {0})
  pub get_item : String → Eff W (Option I)
  pub update_item : String → List Action → Condition → Eff W (Unit {0})
  pub delete_item : String → Eff W (Unit {0})
  -- idle-index and session-index: the value of the key, and the limit
  pub query_idle : String → ℕ → Eff W (List I)
  pub query_session : String → ℕ → Eff W (List I)

-- The contents of the table change by committed writes only; `row` is what an item holds.
pub record IsDynamo {W I : Type 0} (c : Client W I) (row : I → Runner) (table : W → Table)
    : Type 0 where
  pub put_item_commits :
      (i : I) (cond : Condition) (w : W)
      → Commit
          (table w)
          (table (c.put_item i cond w).1)
          (accepts (table w) (put (row i) cond))
          (apply_write (put (row i) cond) (table w))
          (c.put_item i cond w).0
  pub update_item_commits :
      (id : String) (acts : List Action) (cond : Condition) (w : W)
      → Commit
          (table w)
          (table (c.update_item id acts cond w).1)
          (accepts (table w) (update id acts cond))
          (apply_write (update id acts cond) (table w))
          (c.update_item id acts cond w).0
  pub delete_item_commits :
      (id : String) (w : W)
      → Commit
          (table w)
          (table (c.delete_item id w).1)
          (accepts (table w) (remove id))
          (apply_write (remove id) (table w))
          (c.delete_item id w).0
  pub get_item_reads : (id : String) (w : W) → table (c.get_item id w).1 ≡ table w
  pub query_idle_reads : (b : String) (n : ℕ) (w : W) → table (c.query_idle b n w).1 ≡ table w
  pub query_session_reads : (s : String) (n : ℕ) (w : W) → table (c.query_session s n w).1 ≡ table w
