-- ===== src/Runner/Session.antt =====
-- runner/session.go: the shells of the runner, by session. Each method holds the manager's lock while
-- it touches the map, so a method is the steps on the map that are written here.
pub mod Lifecycle
pub mod Accounts
use cli_demo.Prelude.{
  String, ◌<>◌, ◌≡◌, Bool, true, false, List, [], ◌∷◌, Option, none, some, ◌==◌, string_eq,
  if◌then◌else◌,
}
use cli_demo.Prelude.Dict.{Dict, lookup, insert, without}
use cli_demo.GoError.{Error, sentinel, plain, session_not_found}
use cli_demo.Effect.{Result, ok, err, Eff, pure, raise, attempt, ◌>>=◌, ◌>>◌, wrapping}

-- Shells of type `S` in a world `W` of processes: starting one and closing one.
pub record SessionManager (W S : Type 0) : Type 0 where
  pub gen_id : Eff W String
  -- strconv.Quote, for %q
  pub quote : String → String
  pub new_shell : Eff W S
  pub close : S → Eff W (Unit {0})

-- What the manager holds, and the world.
abbrev pub Managed : Type 0 → Type 0 → Type 0
Managed W S = Dict String S × W

module _ {W S : Type 0} where
  -- A call that does not look at the map.
  unfoldable pub outside : {A : Type 0} → Eff W A → Eff (Managed W S) A
  outside m w = ((m w.1).0, (w.0, (m w.1).1))

  unfoldable pub sessions : Eff (Managed W S) (Dict String S)
  sessions w = (ok w.0, w)

  unfoldable pub set_sessions : Dict String S → Eff (Managed W S) (Unit {0})
  set_sessions t w = (ok tt, (t, w.1))

module _ {W S : Type 0} (m : SessionManager W S) where
  open m use {gen_id, quote, new_shell, close}

  -- `m.sessions[id]` while the new shell is there already.
  store_new : String → S → Dict String S → Option S → Eff (Managed W S) (String × S)
  store_new id shell t (some old) =
      attempt (outside (close shell))
      >> raise (plain ("create session: duplicate session id " <> quote id))
  store_new id shell t none = set_sessions (insert id shell t) >> pure (id, shell)

  unfoldable pub create : Eff (Managed W S) (String × S)
  unfolding store_new
  create = do
    id ← outside gen_id
    shell ← wrapping "create session" (outside new_shell)
    t ← sessions
    store_new id shell t (lookup id t)

  found : Option S → Eff (Managed W S) S
  found none = raise (sentinel session_not_found)
  found (some shell) = pure shell

  unfoldable pub get : String → Eff (Managed W S) S
  unfolding found
  get id = do t ← sessions; found (lookup id t)

  delete_found : String → Dict String S → Option S → Eff (Managed W S) (Unit {0})
  delete_found id t none = raise (sentinel session_not_found)
  delete_found id t (some shell) = set_sessions (without id t) >> outside (close shell)

  unfoldable pub delete : String → Eff (Managed W S) (Unit {0})
  unfolding delete_found
  delete id = do t ← sessions; delete_found id t (lookup id t)

  first_error : Option Error → Result (Unit {0}) → Option Error
  first_error none (err e) = some e
  first_error o r = o

  finished : Option Error → Eff (Managed W S) (Unit {0})
  finished none = pure tt
  finished (some e) = raise e

  -- The loop of CloseAll, in the order in which the map gives the shells.
  unfoldable pub close_each : List S → Option Error → Eff (Managed W S) (Unit {0})
  unfolding first_error finished
  close_each [] first = finished first
  close_each (s ∷ ss) first = do
    r ← attempt (outside (close s))
    close_each ss (first_error first r)

  unfoldable pub close_all : (Dict String S → List S) → Eff (Managed W S) (Unit {0})
  close_all range = do t ← sessions; set_sessions []; close_each (range t) none
