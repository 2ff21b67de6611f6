-- ===== src/Runner/Shell/Process.antt =====
-- runner/shell.go: how the bash process is started and ended, over the commander.
use cli_demo.Prelude.{String, ◌<>◌, ◌≡◌, refl, ◌∙◌, Bool, false, Eq, arith}
use cli_demo.GoError.{Error, wrap, error_text}
use cli_demo.Effect.{Result, ok, err, Eff, pure, raise, attempt, ◌>>=◌, ◌>>◌, wrapping, or_return}
use cli_demo.Effect.Opened.{with_one, without_one, AreOpen, Opens, without_one-same}
use cli_demo.Effect.Ends.{
  Ends, Ends-pure, Ends-raise, Ends-bind, Ends-known, Ends-or_return, Ends-attempt_both,
}

-- The commander, with the calls on pipes of type `P`.
pub record Commander (W P : Type 0) : Type 0 where
  pub stdin_pipe : Eff W P
  pub stdout_pipe : Eff W P
  pub stderr_pipe : Eff W P
  pub start : Eff W (Unit {0})
  pub wait : Eff W (Unit {0})
  pub close : P → Eff W (Unit {0})
  pub write_string : P → String → Eff W (Unit {0})

-- The pipes of a shell that was started.
pub record Pipes (P : Type 0) : Type 0 where
  pub stdin : P
  pub stdout : P
  pub stderr : P

module _ {W P : Type 0} (cmd : Commander W P) where
  open cmd use {stdin_pipe, stdout_pipe, stderr_pipe, start, wait, close, write_string}

  -- stdin.Close(), and the like: its error is not looked at.
  closing : {A : Type 0} → P → Eff W A → Eff W A
  closing p m = attempt (close p) >> m

  unfoldable pub new_bash_shell : Eff W (Pipes P)
  unfolding closing
  new_bash_shell =
      or_return stdin_pipe (λ e. raise (wrap "stdin pipe" e))
        (λ stdin.
          or_return stdout_pipe (λ e. closing stdin (raise (wrap "stdout pipe" e)))
            (λ stdout.
              or_return stderr_pipe
                (λ e. closing stdin (closing stdout (raise (wrap "stderr pipe" e))))
                (λ stderr.
                  or_return start
                    (λ e.
                      closing stdin (closing stdout (closing stderr (raise (wrap "start bash" e)))))
                    (λ _. pure (record { stdin = stdin; stdout = stdout; stderr = stderr })))))

  close_error : Result (Unit {0}) → Result (Unit {0}) → Eff W (Unit {0})
  close_error (err e) (err f) = raise (wrap (error_text e <> "; wait") f)
  close_error (err e) (ok u) = raise e
  close_error (ok u) (err f) = raise f
  close_error (ok u) (ok v) = pure tt

  -- Close.
  unfoldable pub close_shell : P → Eff W (Unit {0})
  unfolding close_error
  close_shell stdin = do
    written ← attempt (wrapping "write exit" (write_string stdin "exit\n"))
    waited ← attempt wait
    close_error written waited

-- Which pipes are open: closing a pipe closes that one and no other, also where it fails, and starting
-- a process opens and closes none.
pub record IsTracked {W P : Type 0} ⦃e : Eq P⦄ (cmd : Commander W P) (is_open : W → P → Bool)
    : Type 0 where
  pub stdin_opens : Opens is_open cmd.stdin_pipe
  pub stdout_opens : Opens is_open cmd.stdout_pipe
  pub stderr_opens : Opens is_open cmd.stderr_pipe
  pub starts :
      (s : P → Bool)
      → Ends (AreOpen is_open s) cmd.start (λ u. AreOpen is_open s) (λ e. AreOpen is_open s)
  pub closes :
      (p : P) (s : P → Bool)
      → Ends
          (AreOpen is_open s)
          (cmd.close p)
          (λ u. AreOpen is_open (without_one p s))
          (λ e. AreOpen is_open (without_one p s))

-- The three pipes of a shell and those that were open before, among which they are not.
pub record HasOpened {P : Type 0} ⦃e : Eq P⦄ (s : P → Bool) (pipes : Pipes P) (t : P → Bool)
    : Type 0 where
  pub stdin_new : s pipes.stdin ≡ false
  pub stdout_new : with_one pipes.stdin s pipes.stdout ≡ false
  pub stderr_new : with_one pipes.stdout (with_one pipes.stdin s) pipes.stderr ≡ false
  pub now_open :
      (q : P) → t q ≡ with_one pipes.stderr (with_one pipes.stdout (with_one pipes.stdin s)) q

module _ {W P : Type 0} ⦃e : Eq P⦄ (cmd : Commander W P) (is_open : W → P → Bool)
    (law : IsTracked cmd is_open) where
  Fails : (P → Bool) → (P → Bool) → Eff W (Pipes P) → Type 0
  Fails s t f =
      Ends (AreOpen is_open s) f (λ pipes w. HasOpened t pipes (is_open w)) (λ e. AreOpen is_open t)

  closing-Fails :
      (p : P) (s t : P → Bool) (f : Eff W (Pipes P))
      → Fails (without_one p s) t f
      → Fails s t (closing cmd p f)
  unfolding Fails closing
  closing-Fails p s t f h =
      Ends-bind _ _ (λ _. AreOpen is_open (without_one p s)) (Ends-attempt_both _ (law.closes p s))
        (λ r. h)

  raise-Fails : (x : Error) (s t : P → Bool) → ((q : P) → s q ≡ t q) → Fails s t (raise x)
  unfolding Fails
  raise-Fails x s t h = Ends-raise x (λ w p q. p q ∙ h q)

  -- newBashShellFromCommander leaves exactly the open pipes that there were and the three of
  -- the shell, which are new and different, where it succeeds, and exactly those that there
  -- were where it fails, at whichever step. Opening a pipe gives one that was not open or
  -- fails, starting opens and closes none, and closing a pipe closes that one and no other
  -- even if it fails.
  pub new_bash_shell-Opened :
      (s : P → Bool)
      → Ends
          (AreOpen is_open s)
          (new_bash_shell cmd)
          (λ pipes w. HasOpened s pipes (is_open w))
          (λ e w. AreOpen is_open s w)
  unfolding new_bash_shell Fails
  new_bash_shell-Opened s =
      Ends-or_return _ _ _ _ _ (law.stdin_opens s) (λ x. raise-Fails _ s s (λ q. refl))
        (λ stdin. Ends-known (λ new_in.
          let s1 = with_one stdin s in
          Ends-or_return _ _ _ _ _ (law.stdout_opens s1)
            (λ x. closing-Fails stdin s1 s _ (raise-Fails _ _ s (λ q. out1 stdin q new_in)))
            (λ stdout. Ends-known (λ new_out.
              let s2 = with_one stdout s1 in
              Ends-or_return _ _ _ _ _ (law.stderr_opens s2)
                (λ x. closing-Fails stdin s2 s _ (
                  closing-Fails stdout _ s _
                    (raise-Fails _ _ s (λ q. out2 stdin stdout q new_in new_out))))
                (λ stderr. Ends-known (λ new_err.
                  let s3 = with_one stderr s2 in
                  Ends-or_return _ _ _ _ _ (law.starts s3)
                    (λ x. closing-Fails stdin s3 s _ (
                      closing-Fails stdout _ s _ (
                        closing-Fails stderr _ s _ (
                          raise-Fails _ _ s
                            (λ q. out3 stdin stdout stderr q new_in new_out new_err)))))
                    (λ u. Ends-pure _ (λ w p. record {
                      stdin_new = new_in;
                      stdout_new = new_out;
                      stderr_new = new_err;
                      now_open = p;
                    }))))))))
    where
      out1 : (a q : P) → s a ≡ false → without_one a (with_one a s) q ≡ s q
      out1 a q na = ground (arith, without_one-same s a q na)

      out2 :
          (a b q : P)
          → s a ≡ false
          → with_one a s b ≡ false
          → without_one b (without_one a (with_one b (with_one a s))) q ≡ s q
      out2 a b q na nb =
          ground (arith, without_one-same s a q na, without_one-same (with_one a s) b q nb)

      out3 :
          (a b c q : P)
          → s a ≡ false
          → with_one a s b ≡ false
          → with_one b (with_one a s) c ≡ false
          → without_one c (without_one b (without_one a (with_one c (with_one b (with_one a s))))) q
            ≡ s q
      out3 a b c q na nb nc = ground (
        arith,
        without_one-same s a q na,
        without_one-same (with_one a s) b q nb,
        without_one-same (with_one b (with_one a s)) c q nc,
      )
