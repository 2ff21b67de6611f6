-- ===== src/Tests/Shell.antt =====
-- runner/shell.go on concrete inputs: a command that prints a line and half of one, and an error.
use cli_demo.Prelude.{
  ℕ, ◌≡◌, refl, sym, ap, ◌∙◌, Bool, true, false, not, ◌&&◌, ◌||◌, ◌==◌, nat_eq, List, [], ◌∷◌, ◌++◌,
  none, some, arith,
}
use cli_demo.Prelude.Int.{pos}
use cli_demo.Prelude.Bytes.{Bytes, codes, newline, strip_prefix, split_first, decimal}
use cli_demo.GoError.{plain}
use cli_demo.Effect.{Result, ok, err, Eff}
use cli_demo.Effect.Ends.{Ends, Post}
use cli_demo.Effect.Opened.{with_one, without_one, AreOpen, Opens}
use cli_demo.Runner.Shell.Process.{
  Commander, new_bash_shell, IsTracked, HasOpened, new_bash_shell-Opened,
}
use cli_demo.Runner.Shell.{
  script_of, Shell, Env, marker_of, read_stderr, read_chunk, check_stderr_marker, armed,
  execute_stream,
}
use cli_demo.Runner.Shell.Text.{scan_lines}
use cli_demo.Runner.Shell.Stdout.{IsOpen}
use cli_demo.Runner.Shell.Stderr.{joined, found, read_stderr-armed}
use cli_demo.Runner.Shell.Synchrony.{IsSynchronized, execute_stream-IsSynchronized}
use cli_demo.Runner.Shell.Stream.{Printed, unlines, delivered, execute_stream-delivers, world}

abbrev marker : Bytes
marker = codes "__MRK_7_END__"

abbrev output : Bytes
output = codes "one" ++ newline ∷ codes "tw" ++ newline ∷ marker ++ codes "3" ++ newline ∷ []

-- The world is what was sent.
abbrev env : Env (List Bytes)
env = record {
  now = λ w. 7;
  context_error = λ w. none;
  write_stdin = λ s w. (ok tt, w);
  stdout = λ w. record { lines = scan_lines output; failure = none };
  send = λ b w. (ok tt, w ++ b ∷ []);
  stderr_reads =
      λ w. (codes "oops" ++ newline ∷ codes "__MRK") ∷ (codes "_7_END__" ++ newline ∷ []) ∷ [];
}

env-IsOpen : IsOpen env (λ w. w)
env-IsOpen = record {
  send_succeeds = λ b w. refl;
  send_logs = λ b w. refl;
  send_keeps_reads = λ b w. refl;
}

abbrev fresh : Shell
fresh = record {
  stderr_buf = codes "old";
  stderr_marker = [];
  stderr_done = true;
  unread = [];
  broken = none;
}

printed :
    Printed env
      (λ w. w)
      env-IsOpen
      fresh
      (codes "ls")
      []
      []
      (codes "one" ∷ [])
      (codes "tw")
      3
      []
      (codes "oops" ++ newline ∷ [])
      (newline ∷ [])
unfolding marker_of decimal strip_prefix split_first joined unlines scan_lines
printed = record {
  usable = (refl, refl);
  in_time = refl;
  is_written = refl;
  prints = refl;
  whole_lines = ((ground arith, refl), tt);
  last_line = (ground arith, refl);
  exits = omega arith;
  earlier = (codes "oops" ++ newline ∷ codes "__MRK") ∷ [];
  last_read = codes "_7_END__" ++ newline ∷ [];
  reads = refl;
  not_before = refl;
  splits = refl;
}

execute_stream-delivers_example :
    (execute_stream env fresh (codes "ls") []
      ≡ some (
        record { exit_code = pos 3; stderr = (codes "oops" ++ newline ∷ []) ++ []; error = none },
        found (record fresh { unread = scan_lines [] }) ((codes "oops" ++ newline ∷ []) ++ []),
        world env (λ w. w) env-IsOpen printed,
      ))
    × (world env (λ w. w) env-IsOpen printed ≡ delivered (codes "one" ∷ []) (codes "tw"))
execute_stream-delivers_example = execute_stream-delivers env (λ w. w) env-IsOpen printed

-- A channel that refuses everything.
abbrev refusing : Env (List Bytes)
refusing = record env { send = λ b w. (err (plain "context canceled"), w) }

execute_stream-IsSynchronized_example :
    IsSynchronized refusing [] (execute_stream refusing fresh (codes "ls") [])
unfolding marker_of decimal scan_lines strip_prefix split_first read_stderr read_chunk
    check_stderr_marker
execute_stream-IsSynchronized_example =
    execute_stream-IsSynchronized refusing fresh (codes "ls") [] [] (codes "one" ∷ codes "tw" ∷ [])
      3 [] (refl, refl) refl refl refl (refl, (refl, tt)) (omega arith) (λ v. refl)

read_stderr-armed_example :
    read_stderr ((codes "ab" ∷ []) ++ (codes "c" ++ newline ∷ []) ∷ []) (armed (codes "bc") fresh)
    ≡ found fresh (codes "a")
unfolding split_first strip_prefix joined
read_stderr-armed_example =
    read_stderr-armed fresh 98 (codes "c") (codes "ab" ∷ []) (codes "c" ++ newline ∷ []) (codes "a")
      (newline ∷ []) refl refl

-- The end of the marker's line in a read of its own stays in the buffer.
late_newline :
    (read_stderr (marker ∷ (newline ∷ []) ∷ []) (armed marker fresh)).stderr_buf ≡ newline ∷ []
unfolding split_first strip_prefix read_stderr read_chunk check_stderr_marker
late_newline = refl

-- The world is the set of open pipes, of which there are three; bash does not start.
abbrev taken : ℕ → (ℕ → Bool) → Bool → Result ℕ × (ℕ → Bool)
taken p w true = (err (plain "too many open files"), w)
taken p w false = (ok p, with_one p w)

abbrev open_at : ℕ → Eff (ℕ → Bool) ℕ
open_at p w = taken p w (w p)

abbrev commander : Commander (ℕ → Bool) ℕ
commander = record {
  stdin_pipe = open_at 0;
  stdout_pipe = open_at 1;
  stderr_pipe = open_at 2;
  start = λ w. (err (plain "exec: no command"), w);
  wait = λ w. (ok tt, w);
  close = λ p w. (ok tt, without_one p w);
  write_string = λ p s w. (ok tt, w);
}

open_at-Opens : (p : ℕ) → Opens (λ w q. w q) (open_at p)
open_at-Opens p s = record { at = λ w h. go w h (w p) refl }
  where
    go :
        (w : ℕ → Bool)
        → AreOpen (λ v q. v q) s w
        → (b : Bool) → w p ≡ b
        → Post
            (λ p v. (s p ≡ false) × AreOpen (λ u q. u q) (with_one p s) v)
            (λ e v. AreOpen (λ u q. u q) s v)
            (taken p w b).0
            (taken p w b).1
    go w h true e = h
    go w h false e = (sym (h p) ∙ e, (λ q. ap (λ b. (q == p) || b) (h q)))

commander-IsTracked : IsTracked commander (λ w q. w q)
commander-IsTracked = record {
  stdin_opens = open_at-Opens 0;
  stdout_opens = open_at-Opens 1;
  stderr_opens = open_at-Opens 2;
  starts = λ s. record { at = λ w h. h };
  closes = λ p s. record { at = λ w h q. ap (λ b. not (q == p) && b) (h q) };
}

new_bash_shell-Opened_example :
    Ends
      (AreOpen (λ w q. w q) (λ q. q == 7))
      (new_bash_shell commander)
      (λ pipes w. HasOpened (λ q. q == 7) pipes w)
      (λ e w. AreOpen (λ v q. v q) (λ q. q == 7) w)
new_bash_shell-Opened_example =
    new_bash_shell-Opened commander (λ w q. w q) commander-IsTracked (λ q. q == 7)

script :
    script_of (codes "M") (codes "ls -l")
    ≡ codes
        "unset __HM_SESS_VARS_SOURCED; . \"$HOME/.nix-profile/etc/profile.d/hm-session-vars.sh\" 2>/dev/null || true\nls -l\n__ec=$?\nunset __HM_SESS_VARS_SOURCED; . \"$HOME/.nix-profile/etc/profile.d/hm-session-vars.sh\" 2>/dev/null || true\nbuiltin echo 'M' >&2\nbuiltin echo ''\nbuiltin echo 'M'${__ec}\n"
unfolding script_of
script = refl
