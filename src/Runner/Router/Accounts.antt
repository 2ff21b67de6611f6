-- ===== src/Runner/Router/Accounts.antt =====
-- runner: the open shells under any requests, and at the end.
use mathlib.Core.Bool.{true≢false}
use cli_demo.Prelude.{
  ℕ, String, ◌≡◌, refl, sym, ◌∙◌, Bool, true, false, Eq, List, [], ◌∷◌, Option, none, some, All,
  string_eq,
}
use cli_demo.Prelude.Dict.{Dict, lookup}
use cli_demo.Effect.Opened.{is_in}
use cli_demo.GoError.{Error}
use cli_demo.Effect.{Result, ok, err, Eff}
use cli_demo.Effect.Keeps.{
  Keeps, keeps_rules, Keeps-pure, Keeps-bind, Keeps-if, Keeps-or_return, Keeps-attempt, Keeps-lift,
}
use cli_demo.Effect.Ends.{Ends-drop}
use cli_demo.Runner.Session.{SessionManager, Managed, close_all}
use cli_demo.Runner.Session.Accounts.{
  IsTracked, IsAccounted, Matches, create-IsAccounted, delete-IsAccounted, get-IsAccounted,
  outside-keeps_accounts, close_all-Closed,
}
use cli_demo.Runner.LlmValidator.{ValidationResult}
use cli_demo.Runner.Handler.{
  Request, Answer, AuditEntry, HandlerDeps, refuse, with_session_id, handle_create_session,
  handle_delete_session, audited, stream, noted, judged, validated, decide, handle_execute,
}
use cli_demo.Runner.Router.{Route, Incoming, handle_health, answered, new_handler, serve, serve_all}

module _ {W S : Type 0} {P : Managed W S → Type 0} where
  refuse-keeps : (n : ℕ) (text : String) → Keeps P (refuse n text)
  unfolding refuse
  refuse-keeps n text = Keeps-pure _

  with_session_id-keeps :
      (c : Result String) (k : String → Eff (Managed W S) Answer)
      → ((id : String) → Keeps P (k id))
      → Keeps P (with_session_id c k)
  unfolding with_session_id
  with_session_id-keeps (err e) k h = refuse-keeps 400 _
  with_session_id-keeps (ok id) k h = Keeps-if _ _ _ (refuse-keeps 400 _) (h id)

ruleset answer_rules = (keeps_rules, Keeps-or_return, refuse-keeps)

Matches-nil : {S : Type 0} (s : S → Bool) → ((x : S) → s x ≡ false) → Matches {S = S} [] s
unfolding lookup
Matches-nil s closed = record {
  held_open = λ id x e. cc e;
  open_held = λ x e. absurd (true≢false (sym e ∙ closed x));
  once = λ id id' x e f. cc e;
}

-- Running a command, writing an audit entry and asking the validator open and close no shell.
pub record IsShellFree {W S : Type 0} (d : HandlerDeps W S)
    (v : Option (String → Eff W ValidationResult)) (is_open : W → S → Bool) : Type 0 where
  pub executes :
      (s : S) (command : String) (w : W) (x : S) → is_open (d.execute s command w).1 x ≡ is_open w x
  pub audits : (e : AuditEntry) (w : W) (x : S) → is_open (d.audit e w) x ≡ is_open w x
  pub validates :
      (validate : String → Eff W ValidationResult) (command : String) (w : W)
      → v ≡ some validate
      → (x : S) → is_open (validate command w).1 x ≡ is_open w x

module _ {W S : Type 0} ⦃eq : Eq S⦄ (m : SessionManager W S) (d : HandlerDeps W S)
    (v : Option (String → Eff W ValidationResult)) (is_open : W → S → Bool)
    (law : IsTracked m is_open) (free : IsShellFree d v is_open) where
  abbrev Accounted : Managed W S → Type 0
  Accounted w = IsAccounted m is_open law w

  audited-Accounted : (e : AuditEntry) → Keeps Accounted (audited d e)
  unfolding audited
  audited-Accounted e = outside-keeps_accounts m is_open law _ (free.audits e)

  noted-Accounted :
      (id : String) (req : Request) (class command : String) (e : Option Error)
      → Keeps Accounted (noted d id req class command e)
  unfolding noted
  noted-Accounted id req class command e = audited-Accounted _

  stream-Accounted :
      (id : String) (req : Request) (class command : String) (shell : S)
      → Keeps Accounted (stream d id req class command shell)
  unfolding stream
  stream-Accounted id req class command shell =
      Keeps-bind _ _ (outside-keeps_accounts m is_open law _ (free.executes shell command))
        (λ r. search (keeps_rules, audited-Accounted))

  judged-Accounted :
      (id : String) (req : Request) (class command : String) (shell : S)
      (r : Result ValidationResult)
      → Keeps Accounted (judged d id req class command shell r)
  unfolding judged
  judged-Accounted id req class command shell (ok result) =
      search (answer_rules, noted-Accounted, stream-Accounted)
  judged-Accounted id req class command shell (err e) =
      search (answer_rules, noted-Accounted, stream-Accounted)

  validated-Accounted :
      (o : Option (String → Eff W ValidationResult)) (id : String) (req : Request)
      (class command : String) (shell : S)
      → v ≡ o
      → Keeps Accounted (validated d o id req class command shell)
  unfolding validated
  validated-Accounted none id req class command shell e = refuse-keeps 403 _
  validated-Accounted (some validate) id req class command shell e =
      Keeps-bind _ _
        (Keeps-attempt _
          (outside-keeps_accounts m is_open law _ (λ w. free.validates validate command w e)))
        (judged-Accounted id req class command shell)

  decide-Accounted :
      (id : String) (req : Request) (command : String) (shell : S)
      → Keeps Accounted (decide d v id req command shell)
  unfolding decide
  decide-Accounted id req command shell =
      Keeps-bind _ _ (noted-Accounted id req _ command none) (λ _.
        Keeps-if _ _ _ (validated-Accounted v id req _ command shell refl)
          (stream-Accounted id req _ command shell))

  handle_execute-Accounted : (req : Request) → Keeps Accounted (handle_execute d m v req)
  unfolding handle_execute
  handle_execute-Accounted req = with_session_id-keeps _ _ (λ id.
      Keeps-or_return _ _ _ (get-IsAccounted m is_open law id) (λ e. refuse-keeps 404 _)
        (λ shell.
          Keeps-or_return _ _ _ (Keeps-lift _) (λ e. refuse-keeps 400 _)
            (λ command. decide-Accounted id req command shell)))

  handle_create_session-Accounted : Keeps Accounted (handle_create_session m)
  unfolding handle_create_session
  handle_create_session-Accounted =
      Keeps-or_return _ _ _ (create-IsAccounted m is_open law) (λ e. refuse-keeps 500 _)
        (λ r. Keeps-pure _)

  handle_delete_session-Accounted : (req : Request) → Keeps Accounted (handle_delete_session m req)
  unfolding handle_delete_session
  handle_delete_session-Accounted req = with_session_id-keeps _ _ (λ id.
      Keeps-or_return _ _ _ (delete-IsAccounted m is_open law id) (λ e. search answer_rules)
        (λ u. Keeps-pure _))

  answered-Accounted :
      (a : Eff (Managed W S) Answer) → Keeps Accounted a → Keeps Accounted (answered a)
  unfolding answered
  answered-Accounted a k = Keeps-bind _ _ k (λ r. Keeps-pure _)

  AllAccounted : List (Route W S) → Type 0
  AllAccounted routes = All (λ route. (req : Request) → Keeps Accounted (route.handler req)) routes

  new_handler-Accounted : AllAccounted (new_handler m d v)
  unfolding AllAccounted handle_health
  new_handler-Accounted = (
    (λ req. Keeps-pure _),
    (
      (λ req. answered-Accounted _ handle_create_session-Accounted),
      (
        (λ req. answered-Accounted _ (handle_delete_session-Accounted req)),
        ((λ req. answered-Accounted _ (handle_execute-Accounted req)), tt),
      ),
    ),
  )

  serve-Accounted :
      (routes : List (Route W S)) (req : Incoming)
      → AllAccounted routes
      → Keeps Accounted (serve routes req)
  unfolding serve AllAccounted
  serve-Accounted [] req all = Keeps-pure _
  serve-Accounted (route ∷ routes) req all =
      Keeps-if _ _ _ (Keeps-bind _ _ (all.0 req.request) (λ r. Keeps-pure _))
        (serve-Accounted routes req all.1)

  serve_all-Accounted :
      (reqs : List Incoming) (w : Managed W S)
      → Accounted w
      → Accounted (serve_all (new_handler m d v) reqs w)
  unfolding serve_all
  serve_all-Accounted [] w h = h
  serve_all-Accounted (req ∷ reqs) w h =
      serve_all-Accounted reqs _ ((serve-Accounted _ req new_handler-Accounted).at w h)

  -- From an empty runner on, any sequence of requests to its routes, each of which may fail at
  -- any point, leaves exactly the shells of the sessions open, each of one session; and
  -- CloseAll then leaves no session and no open shell, also where closing fails. A new shell
  -- was not open before, closing a shell closes that one and no other even if it fails,
  -- nothing else opens or closes one, and ranging over the map gives each of its shells.
  pub close_all-Empty :
      (range : Dict String S → List S) (reqs : List Incoming) (w : W)
      → ((t : Dict String S) (id : String) (x : S)
          → lookup id t ≡ some x
          → is_in (range t) x ≡ true)
      → ((x : S) → is_open w x ≡ false)
      → let served = serve_all (new_handler m d v) reqs ([], w) in
        Accounted served
        × ((close_all m range served).1.0 ≡ [])
        × ((x : S) → is_open (close_all m range served).1.1 x ≡ false)
  close_all-Empty range reqs w all none_open =
      let h = serve_all-Accounted reqs ([], w) (Matches-nil (is_open w) none_open) in
      let e =
        Ends-drop (close_all-Closed m is_open law range _ _ h (all _)) _ (refl, (λ x. refl)) in
      (h, e.0, e.1)
