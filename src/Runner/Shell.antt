-- ===== src/Runner/Shell.antt =====
-- runner/shell.go: one persistent bash. A command is written to its stdin with a marker after it; the
-- marker's line on stdout ends the command's output and carries the exit code, and its line on stderr
-- ends what the command wrote there. Text is the numbers of its characters here.
pub mod Text
pub mod Stdout
pub mod Stderr
pub mod Stream
pub mod Process
pub mod Synchrony
use cli_demo.Prelude.{
  ℕ, String, Bool, true, false, List, [], ◌∷◌, ◌++◌, Option, none, some, ◌==◌, nat_eq,
  if◌then◌else◌,
}
use cli_demo.Prelude.Int.{ℤ, pos, negsuc}
use cli_demo.Prelude.Bytes.{Bytes, codes, newline, strip_prefix, split_first, decimal, atoi}
use cli_demo.GoError.{Error, wrap, plain}
use cli_demo.Effect.{Result, ok, err, Eff, wrapping}

-- What the scanner of stdout still gives: lines, and then an error or the end.
pub record Scanner : Type 0 where
  pub lines : List Bytes
  pub failure : Option Error

-- The fields of bashShell that change: the buffer of stderr, the marker that is looked for there,
-- whether `stderrDone` is closed, the lines of stdout that no command has read, and `broken`.
pub record Shell : Type 0 where
  pub stderr_buf : Bytes
  pub stderr_marker : Bytes
  pub stderr_done : Bool
  pub unread : List Bytes
  pub broken : Option Error

-- The world around a shell: the clock in nanoseconds, the context, stdin, what bash prints on stdout
-- once a command was written, the channel, and the reads of the goroutine on stderr until the call
-- takes the buffer.
pub record Env (W : Type 0) : Type 0 where
  pub now : W → ℕ
  pub context_error : W → Option Error
  pub write_stdin : Bytes → Eff W (Unit {0})
  pub stdout : W → Scanner
  -- an error is that of a context that is done
  pub send : Bytes → Eff W (Unit {0})
  pub stderr_reads : W → List Bytes

pub record Outcome : Type 0 where
  pub exit_code : ℤ
  pub stderr : Bytes
  pub error : Option Error

abbrev pub failed : Error → Outcome
failed e = record { exit_code = negsuc 0; stderr = []; error = some e }

abbrev pub desynchronized : Error → Error
desynchronized e = wrap "shell session desynchronized" e

-- One read of the goroutine: checkStderrMarker after the bytes are in the buffer.
abbrev pub drop_newline : Bytes → Bytes
drop_newline [] = []
drop_newline (c ∷ s) = if c == newline then s else c ∷ s

stripped : Shell → Option (Bytes × Bytes) → Shell
stripped sh none = sh
stripped sh (some (before, after)) = record sh {
  stderr_buf = before ++ drop_newline after;
  stderr_marker = [];
  stderr_done = true;
}

unfoldable pub check_stderr_marker : Shell → Shell
unfolding stripped
check_stderr_marker sh = elim sh.stderr_marker [
  | [] ↦ sh
  | c ∷ m ↦ stripped sh (split_first (c ∷ m) sh.stderr_buf)
]

unfoldable pub read_chunk : Bytes → Shell → Shell
read_chunk chunk sh = check_stderr_marker (record sh { stderr_buf = sh.stderr_buf ++ chunk })

unfoldable pub read_stderr : List Bytes → Shell → Shell
read_stderr [] sh = sh
read_stderr (chunk ∷ chunks) sh = read_stderr chunks (read_chunk chunk sh)

abbrev pub reset_stderr : Shell → Shell
reset_stderr sh = record sh { stderr_buf = [] }

abbrev pub armed : Bytes → Shell → Shell
armed marker sh = record (reset_stderr sh) { stderr_marker = marker; stderr_done = false }

unfoldable pub marker_of : ℕ → Bytes
marker_of nanoseconds = codes "__MRK_" ++ decimal nanoseconds ++ codes "_END__"

abbrev pub reload_env : Bytes
reload_env =
    codes
      "unset __HM_SESS_VARS_SOURCED; . \"$HOME/.nix-profile/etc/profile.d/hm-session-vars.sh\" 2>/dev/null || true"

unfoldable pub script_of : Bytes → Bytes → Bytes
script_of marker command =
    reload_env
    ++ newline ∷ command
    ++ newline ∷ codes "__ec=$?"
    ++ newline ∷ reload_env
    ++ newline ∷ codes "builtin echo '"
    ++ marker
    ++ codes "' >&2"
    ++ newline ∷ codes "builtin echo ''"
    ++ newline ∷ codes "builtin echo '"
    ++ marker
    ++ codes "'${__ec}"
    ++ newline ∷ []

-- How the loop over stdout ended: at the marker, with the text after it, `sendErr` and the lines that
-- are left; or at the end of stdout.
pub data Scanned : Type 0 where
  marked : Bytes → Option Error → List Bytes → Scanned
  ended : Scanned

module _ {W : Type 0} (env : Env W) where
  unfoldable pub send_line : Bytes → Eff W (Unit {0})
  send_line line = wrapping "context" (env.send (line ++ newline ∷ []))

  -- `sendErr` and `pendingEmpty` after a line, and the shell, which a failed send breaks.
  sent : Shell → Result (Unit {0}) × W → (Option Error × Bool) × (Shell × W)
  sent sh (ok u, w) = ((none, false), (sh, w))
  sent sh (err e, w) =
      let e' = desynchronized e in ((some e', false), (record sh { broken = some e' }, w))

  fresh_line : Shell → Bytes → W → (Option Error × Bool) × (Shell × W)
  fresh_line sh [] w = ((none, true), (sh, w))
  fresh_line sh (c ∷ cs) w = sent sh (send_line (c ∷ cs) w)

  flushed : Shell → Bytes → Result (Unit {0}) × W → (Option Error × Bool) × (Shell × W)
  flushed sh line (ok u, w) = fresh_line sh line w
  flushed sh line (err e, w) =
      let e' = desynchronized e in ((some e', true), (record sh { broken = some e' }, w))

  unfoldable pub take_line : Shell → Bool → Bytes → W → (Option Error × Bool) × (Shell × W)
  unfolding sent fresh_line flushed
  take_line sh false line w = fresh_line sh line w
  take_line sh true line w = flushed sh line (send_line [] w)

  -- The loop over the lines of stdout; after a failed send it only looks for the marker.
  unfoldable pub scan_stdout :
      Bytes → Shell → List Bytes → Option Error → Bool → W → Scanned × (Shell × W)
  scan_stdout marker sh [] send_err pending w = (ended, (sh, w))
  scan_stdout marker sh (line ∷ lines) send_err pending w = elim (strip_prefix marker line) [
    | some code ↦ (marked code send_err lines, (sh, w))
    | none ↦ elim send_err [
      | some e ↦ scan_stdout marker sh lines (some e) pending w
      | none ↦
          let r = take_line sh pending line w in scan_stdout marker r.1.0 lines r.0.0 r.0.1 r.1.1
    ]
  ]

  -- After the marker: `<-s.stderrDone`, which waits forever (`none`) where the marker never comes.
  done : Shell → ℤ → Option Error → W → Option (Outcome × Shell × W)
  done sh code none w =
      some (record { exit_code = code; stderr = sh.stderr_buf; error = none }, sh, w)
  done sh code (some e) w = some (failed e, record sh { broken = none }, w)

  await_stderr : Shell → ℤ → Option Error → W → Option (Outcome × Shell × W)
  await_stderr sh code send_err w = if sh.stderr_done then done sh code send_err w else none

  exit_coded : Shell → Option Error → W → Option ℤ → Option (Outcome × Shell × W)
  exit_coded sh send_err w none =
      some (failed (wrap "parse exit code" (plain "invalid syntax or value out of range")), sh, w)
  exit_coded sh send_err w (some code) =
      await_stderr (read_stderr (env.stderr_reads w) sh) code send_err w

  at_end : Shell → W → Option Error → Option (Outcome × Shell × W)
  at_end sh w (some e) = some (
    failed (wrap "scan stdout" e),
    record sh { broken = some (desynchronized (wrap "scan stdout" e)) },
    w,
  )
  at_end sh w none = some (
    failed (plain "unexpected end of stdout"),
    record sh { broken = some (plain "shell session desynchronized: unexpected end of stdout") },
    w,
  )

  scanned : Scanned × (Shell × W) → Option (Outcome × Shell × W)
  scanned (marked code send_err rest, (sh, w)) =
      exit_coded (record sh { unread = rest }) send_err w (atoi code)
  scanned (ended, (sh, w)) = at_end (record sh { unread = [] }) w (env.stdout w).failure

  written : Shell → Result (Unit {0}) × W → Option (Outcome × Shell × W)
  written sh (err e, w) =
      let e' = desynchronized (wrap "write command" e) in
      some (failed e', record sh { broken = some e' }, w)
  written sh (ok u, w) =
      scanned (scan_stdout sh.stderr_marker sh (sh.unread ++ (env.stdout w).lines) none false w)

  in_context : Bytes → Shell → W → Option Error → Option (Outcome × Shell × W)
  in_context command sh w (some e) = some (failed (wrap "context" e), sh, w)
  in_context command sh w none = written sh (env.write_stdin (script_of sh.stderr_marker command) w)

  -- ExecuteStream.
  unfoldable pub execute_stream : Shell → Bytes → W → Option (Outcome × Shell × W)
  unfolding in_context written scanned at_end exit_coded await_stderr done
  execute_stream sh command w = elim sh.broken [
    | some e ↦ some (failed e, sh, w)
    | none ↦ in_context command (armed (marker_of (env.now w)) sh) w (env.context_error w)
  ]
