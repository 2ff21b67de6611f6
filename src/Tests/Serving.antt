-- ===== src/Tests/Serving.antt =====
-- An instance of the theorem on the runner's routes.
use cli_demo.Prelude.{
  ◌<>◌, ℕ, String, ◌≡◌, refl, sym, ap, ◌∙◌, Bool, true, false, not, ◌&&◌, ◌||◌, ◌==◌, nat_eq,
  string_eq, List, [], ◌∷◌, none, some, inl, inr, Bool-cases, arith,
}
use cli_demo.Effect.Opened.{with_one, without_one, AreOpen, Opens, is_in, beq_same}
use cli_demo.Effect.Ends.{Post}
use cli_demo.Prelude.Int.{pos}
use cli_demo.Prelude.Dict.{Dict, lookup}
use cli_demo.GoError.{plain}
use cli_demo.Effect.{Result, ok, err}
use cli_demo.Runner.Session.{SessionManager, close_all}
use cli_demo.Runner.Session.Accounts.{IsTracked, IsAccounted}
use cli_demo.Runner.Handler.{Request, HandlerDeps}
use cli_demo.Runner.Router.{Incoming, new_handler, serve_all}
use cli_demo.Runner.Router.Accounts.{IsShellFree, close_all-Empty}

-- The world is the set of open shells, of which there are two; every session gets the same id, and
-- closing fails.
abbrev opened : (ℕ → Bool) → Bool → Bool → Result ℕ × (ℕ → Bool)
opened w false b = (ok 0, with_one 0 w)
opened w true false = (ok 1, with_one 1 w)
opened w true true = (err (plain "too many shells"), w)

abbrev manager : SessionManager (ℕ → Bool) ℕ
manager = record {
  gen_id = λ w. (ok "s1", w);
  quote = λ s. "\"" <> s <> "\"";
  new_shell = λ w. opened w (w 0) (w 1);
  close = λ x w. (err (plain "signal: killed"), without_one x w);
}

new_shell-Opens : Opens (λ w x. w x) manager.new_shell
new_shell-Opens s = record { at = λ w h. go w h (w 0) (w 1) refl refl }
  where
    go :
        (w : ℕ → Bool)
        → AreOpen (λ v x. v x) s w
        → (a b : Bool) → w 0 ≡ a
        → w 1 ≡ b
        → Post
            (λ x v. (s x ≡ false) × AreOpen (λ u y. u y) (with_one x s) v)
            (λ e v. AreOpen (λ u y. u y) s v)
            (opened w a b).0
            (opened w a b).1
    go w h false b ea eb = (sym (h 0) ∙ ea, (λ y. ap (λ c. (y == 0) || c) (h y)))
    go w h true false ea eb = (sym (h 1) ∙ eb, (λ y. ap (λ c. (y == 1) || c) (h y)))
    go w h true true ea eb = h

manager-IsTracked : IsTracked manager (λ w x. w x)
manager-IsTracked = record {
  gen_id_keeps = λ s. record { at = λ w h. h };
  new_shell_opens = new_shell-Opens;
  closes = λ x s. record { at = λ w h y. ap (λ c. not (y == x) && c) (h y) };
}

abbrev deps : HandlerDeps (ℕ → Bool) ℕ
deps = record {
  execute =
      λ s command w. (record { lines = "a" ∷ []; exit_code = pos 0; stderr = ""; error = none }, w);
  audit = λ e w. w;
}

deps-IsShellFree : IsShellFree deps none (λ w x. w x)
deps-IsShellFree = record {
  executes = λ s command w x. refl;
  audits = λ e w x. refl;
  validates = λ validate command w e. cc e;
}

abbrev values : {S : Type 0} → Dict String S → List S
values [] = []
values ((k, s) ∷ t) = s ∷ values t

is_in-values :
    (t : Dict String ℕ) (id : String) (x : ℕ) → lookup id t ≡ some x → is_in (values t) x ≡ true
unfolding lookup
is_in-values [] id x e = cc e
is_in-values ((k, s) ∷ t) id x e = elim (Bool-cases (k == id)) [
  | inl same ↦
      let found : some s ≡ some x = ground (arith, e, same) in
      let s' : s ≡ x = cc found in ground (arith, beq_same x, s')
  | inr other ↦
      let rest : lookup id t ≡ some x = ground (arith, e, other) in
      ground (arith, is_in-values t id x rest)
]

abbrev request : Result String → Result String → Request
request cookie command = record {
  cookie = cookie;
  viewer_address = "";
  gin_address = "10.0.0.9";
  command = command;
}

-- Two sessions with the same id, a command in the first, and its end; then one more.
abbrev requests : List Incoming
requests =
    record {
      method = "POST";
      path = "/api/session";
      request = request (err (plain "no cookie")) (ok "");
    }
    ∷ record {
      method = "POST";
      path = "/api/session";
      request = request (err (plain "no cookie")) (ok "");
    }
    ∷ record { method = "POST"; path = "/api/execute"; request = request (ok "s1") (ok "ls") }
    ∷ record { method = "DELETE"; path = "/api/session"; request = request (ok "s1") (ok "") }
    ∷ record {
      method = "POST";
      path = "/api/session";
      request = request (err (plain "no cookie")) (ok "");
    }
    ∷ []

close_all-Empty_example :
    let served = serve_all (new_handler manager deps none) requests ([], (λ x. false)) in
    IsAccounted manager (λ w x. w x) manager-IsTracked served
    × ((close_all manager values served).1.0 ≡ [])
    × ((x : ℕ) → (close_all manager values served).1.1 x ≡ false)
close_all-Empty_example =
    close_all-Empty manager deps none (λ w x. w x) manager-IsTracked deps-IsShellFree values
      requests (λ x. false) is_in-values (λ x. refl)
