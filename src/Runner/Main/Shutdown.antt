-- ===== src/Runner/Main/Shutdown.antt =====
-- runner/main.go: what a runner does before it ends.
use mathlib.Core.Bool.{true≢false}
use cli_demo.Prelude.{String, ◌≡◌, refl, sym, ◌∙◌, true, not, ◌&&◌, ◌⊎◌, inl, inr, ◌==◌, string_eq}
use cli_demo.GoError.{Error, wrap}
use cli_demo.Effect.{Result, ok, err}
use cli_demo.Effect.Keeps.{Keeps}
use cli_demo.Effect.Ends.{
  Ends, Any, Ends-pure, Ends-raise, Ends-if, Ends-bind, Ends-or_return, Ends-attempt_both,
  Ends-keeps, Ends-and, Ends-weaken, Ends-any,
}
use cli_demo.Runner.Main.{Server, ServerConfig, first_error, leave, run}

-- `left` holds after an attempt to leave the broker's pool, `closed` after one to close all shells.
pub record IsEnding {W L V : Type 0} (s : Server W L V) (left closed : W → Type 0) : Type 0 where
  pub deregisters : (url id : String) → Ends Any (s.deregister url id) (λ _. left) (λ _. left)
  pub shutdown_keeps : Keeps left s.shutdown
  pub closes : Ends Any s.close_all (λ _. closed) (λ _. closed)
  pub close_all_keeps : Keeps left s.close_all

module _ {W L V : Type 0} (s : Server W L V) (left closed : W → Type 0)
    (law : IsEnding s left closed) (cfg : ServerConfig V)
    (is_named : (not (cfg.broker_url == "") && not (cfg.runner_id == "")) ≡ true) where
  abbrev Ended : Error → W → Type 0
  Ended e w = ((cause : Error) × (e ≡ wrap "serve" cause)) ⊎ (left w × closed w)

  leave-Ends : Ends Any (leave s cfg) (λ r w. left w) Ended
  unfolding leave
  leave-Ends =
      Ends-if (not (cfg.broker_url == "") && not (cfg.runner_id == "")) _ _
        (λ named. Ends-attempt_both _ (law.deregisters cfg.broker_url cfg.runner_id))
        (λ other. absurd (true≢false (sym is_named ∙ other)))

  close_all-Ends : Ends left s.close_all (λ _ w. left w × closed w) (λ _ w. left w × closed w)
  close_all-Ends =
      Ends-and _ (Ends-keeps _ law.close_all_keeps)
        (Ends-weaken (λ w p. tt) (λ a w q. q) (λ e w q. q) law.closes)

  first_error-Ends :
      (r q : Result (Unit {0}))
      → Ends (λ w. left w × closed w) (first_error s r q) (λ _ w. left w × closed w) Ended
  unfolding first_error
  first_error-Ends (err e) q = Ends-raise e (λ w p. inr p)
  first_error-Ends (ok u) (err e) = Ends-raise e (λ w p. inr p)
  first_error-Ends (ok u) (ok v) = Ends-pure tt (λ w p. p)

  -- A runner with a broker and an id that stops at a signal has tried to leave the broker's
  -- pool and to close all its shells, whichever of these and of the server's shutdown failed;
  -- otherwise serving failed.
  pub run-Ends :
      (ln : L)
      → Ends Any
          (run s ln cfg)
          (λ _ w. left w × closed w)
          (λ e w. ((cause : Error) × (e ≡ wrap "serve" cause)) ⊎ (left w × closed w))
  unfolding run
  run-Ends ln =
      Ends-or_return _ _ _ _ _ (Ends-any _) (λ e. Ends-raise _ (λ w p. inl (e, refl)))
        (λ _. Ends-bind _ _ _ leave-Ends (λ l.
          Ends-bind _ _ (λ _. left) (Ends-attempt_both _ (Ends-keeps _ law.shutdown_keeps))
            (λ r.
              Ends-bind _ _ (λ _ w. left w × closed w) (Ends-attempt_both _ close_all-Ends)
                (λ q. first_error-Ends r q))))
