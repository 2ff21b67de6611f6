-- ===== src/Runner/Shell/Stream.antt =====
-- runner/shell.go: a call of ExecuteStream from the command to its exit code.
use cli_demo.Prelude.{
  ℕ, ◌≡◌, refl, sym, ap, ◌∙◌, false, List, [], ◌∷◌, ◌++◌, map, append_assoc, none, some, All,
  All-append, nat_eq, ◌≤◌, ◌-◌, ◌^◌, arith,
}
use cli_demo.Prelude.Int.{pos}
use cli_demo.Prelude.Bytes.{Bytes, codes, newline, strip_prefix, split_first, decimal}
use cli_demo.Prelude.Bytes.Decimal.{IsDigit, decimal-IsDigit, atoi-decimal}
use cli_demo.Effect.{ok}
use cli_demo.Runner.Shell.{
  Shell, Env, marked, drop_newline, read_stderr, marker_of, script_of, scan_stdout, exit_coded,
  await_stderr, done, scanned, written, in_context, armed, execute_stream,
}
use cli_demo.Runner.Shell.Text.{scan_lines, IsPlain, scan_lines-append}
use cli_demo.Runner.Shell.Stdout.{
  IsOpen, with_newline, after, scan_stdout-marked, after-reads, after-lines, after-last,
}
use cli_demo.Runner.Shell.Stderr.{joined, found, read_stderr-armed}

-- The lines of a text.
unfoldable pub unlines : List Bytes → Bytes → Bytes
unlines [] rest = rest
unlines (l ∷ ls) rest = l ++ newline ∷ unlines ls rest

-- A line of output: no line end in it, and it does not begin with the marker.
abbrev pub IsLine : Bytes → Bytes → Type 0
IsLine m l = IsPlain l × (strip_prefix m l ≡ none)

-- What is sent of an output whose last line has no line end.
abbrev pub delivered : List Bytes → Bytes → List Bytes
delivered ls [] = map with_newline ls
delivered ls (c ∷ t) = map with_newline (ls ++ (c ∷ t) ∷ [])

scan_lines-unlines :
    (m : Bytes) (ls : List Bytes) (rest : Bytes)
    → All (IsLine m) ls
    → scan_lines (unlines ls rest) ≡ ls ++ scan_lines rest
unfolding unlines
scan_lines-unlines m [] rest h = refl
scan_lines-unlines m (l ∷ ls) rest h =
    scan_lines-append l (unlines ls rest) h.0.0 ∙ ap (λ r. l ∷ r) (scan_lines-unlines m ls rest h.1)

no_marker :
    (m : Bytes) (ls : List Bytes) → All (IsLine m) ls → All (λ l. strip_prefix m l ≡ none) ls
no_marker m [] h = tt
no_marker m (l ∷ ls) h = (h.0.1, no_marker m ls h.1)

plain : (l : Bytes) → All IsDigit l → IsPlain l
plain [] h = tt
plain (c ∷ l) h = ((ground (arith, h.0), ground (arith, h.0)), plain l h.1)

marker_of-IsPlain : (n : ℕ) → IsPlain (marker_of n)
unfolding marker_of
marker_of-IsPlain n =
    All-append _ (codes "__MRK_" ++ decimal n) (codes "_END__")
      (All-append _ (codes "__MRK_") (decimal n) (ground arith)
        (plain (decimal n) (decimal-IsDigit n)))
      (ground arith)

module _ {W : Type 0} (env : Env W) (log : W → List Bytes) (law : IsOpen env log) where
  -- The lines of stdout, the one of the marker and the rest.
  scan_lines-output :
      (m : Bytes) (ls : List Bytes) (t code rest : Bytes)
      → All (IsLine m) ls
      → IsPlain t
      → IsPlain (m ++ code)
      → scan_lines (unlines ls (t ++ newline ∷ ((m ++ code) ++ newline ∷ rest)))
        ≡ (ls ++ t ∷ []) ++ (m ++ code) ∷ scan_lines rest
  scan_lines-output m ls t code rest h g k =
      scan_lines-unlines m ls _ h
      ∙ ap (λ r. ls ++ r)
          (scan_lines-append t _ g ∙ ap (λ r. t ∷ r) (scan_lines-append (m ++ code) rest k))
      ∙ sym (append_assoc ls (t ∷ []) ((m ++ code) ∷ scan_lines rest))

  delivered-log :
      (sh : Shell) (ls : List Bytes) (t : Bytes) (w : W)
      → log (after env log law sh false (ls ++ t ∷ []) w).0 ≡ log w ++ delivered ls t
  delivered-log sh ls [] w = after-lines env log law sh ls w
  delivered-log sh ls (c ∷ t) w = after-last env log law sh ls c t w

marker-stderr :
    (n : ℕ) (sh : Shell) (cs : List Bytes) (c e after : Bytes)
    → split_first (marker_of n) (joined cs) ≡ none
    → split_first (marker_of n) (joined cs ++ c) ≡ some (e, after)
    → read_stderr (cs ++ c ∷ []) (armed (marker_of n) sh) ≡ found sh (e ++ drop_newline after)
unfolding marker_of
marker-stderr n sh cs c e after = read_stderr-armed sh _ _ cs c e after

module _ {W : Type 0} (env : Env W) (log : W → List Bytes) (law : IsOpen env log) where
  -- What a command prints: whole lines and a last one on stdout, an exit code, and on stderr reads
  -- of which the last brings the marker.
  pub record Printed (sh : Shell) (command : Bytes) (w w' : W) (ls : List Bytes) (t : Bytes) (n : ℕ)
      (rest e tail : Bytes) : Type 0 where
    pub usable : (sh.broken ≡ none) × (sh.unread ≡ [])
    pub in_time : env.context_error w ≡ none
    pub is_written : env.write_stdin (script_of (marker_of (env.now w)) command) w ≡ (ok tt, w')
    pub prints :
        (env.stdout w').lines
        ≡ scan_lines
            (unlines ls (t ++ newline ∷ ((marker_of (env.now w) ++ decimal n) ++ newline ∷ rest)))
    pub whole_lines : All (IsLine (marker_of (env.now w))) ls
    pub last_line : IsLine (marker_of (env.now w)) t
    pub exits : n ≤ 2 ^ 63 - 1
    pub earlier : List Bytes
    pub last_read : Bytes
    pub reads : env.stderr_reads w' ≡ earlier ++ last_read ∷ []
    pub not_before : split_first (marker_of (env.now w)) (joined earlier) ≡ none
    pub splits : split_first (marker_of (env.now w)) (joined earlier ++ last_read) ≡ some (e, tail)

  module _ {sh : Shell} {command : Bytes} {w w' : W} {ls : List Bytes} {t : Bytes} {n : ℕ}
      {rest e tail : Bytes} (p : Printed sh command w w' ls t n rest e tail) where
    abbrev begun : Shell
    begun = armed (marker_of (env.now w)) sh

    abbrev pub world : W
    world = (after env log law begun false (ls ++ t ∷ []) w').0

    -- The loop ends at the marker.
    scan_stdout-Printed :
        scan_stdout env
          (marker_of (env.now w))
          begun
          (sh.unread ++ (env.stdout w').lines)
          none
          false
          w'
        ≡ (marked (decimal n) none (scan_lines rest), (begun, world))
    scan_stdout-Printed =
        let m = marker_of (env.now w) in
        let lines =
          p.prints
          ∙ scan_lines-output env log law m ls t (decimal n) rest p.whole_lines p.last_line.0 (
              All-append _ m (decimal n) (marker_of-IsPlain (env.now w))
                (plain (decimal n) (decimal-IsDigit n))) in
        ap (λ u. scan_stdout env m begun (u ++ (env.stdout w').lines) none false w') p.usable.1
        ∙ ap (λ u. scan_stdout env m begun u none false w') lines
        ∙ scan_stdout-marked env log law begun m (ls ++ t ∷ []) (decimal n) (scan_lines rest) false
            w' (All-append _ ls (t ∷ []) (no_marker m ls p.whole_lines) (p.last_line.1, tt))

    read_stderr-Printed :
        read_stderr
          (env.stderr_reads world)
          (armed (marker_of (env.now w)) (record sh { unread = scan_lines rest }))
        ≡ found (record sh { unread = scan_lines rest }) (e ++ drop_newline tail)
    read_stderr-Printed =
        let sh' = record sh { unread = scan_lines rest } in
        ap (λ r. read_stderr r (armed (marker_of (env.now w)) sh'))
          (after-reads env log law begun false (ls ++ t ∷ []) w' ∙ p.reads)
        ∙ marker-stderr (env.now w) sh' p.earlier p.last_read e tail p.not_before p.splits

    -- For a command that prints whole lines and a last one without its line end on stdout,
    -- and an exit code that an int64 holds: ExecuteStream returns this exit code and what
    -- stderr had before the marker, sends exactly these lines (the last one only if it is
    -- not empty), and leaves the lines after the marker to the next command; what the last
    -- read of stderr has after the marker, without a line end right after it, is in the
    -- returned stderr too. The shell is usable, nothing is unread, the context has no error,
    -- the script is written, the channel takes every line, no line of the output begins with
    -- the marker or has a carriage return, and the last read of stderr brings the marker.
    pub execute_stream-delivers :
        (execute_stream env sh command w
          ≡ some (
            record { exit_code = pos n; stderr = e ++ drop_newline tail; error = none },
            found (record sh { unread = scan_lines rest }) (e ++ drop_newline tail),
            world,
          ))
        × (log world ≡ log w' ++ delivered ls t)
    unfolding execute_stream in_context written scanned exit_coded await_stderr done
    execute_stream-delivers = (
      rw
          (
            execute_stream,
            p.usable.0,
            p.in_time,
            p.is_written,
            scan_stdout-Printed,
            atoi-decimal n p.exits,
            read_stderr-Printed,
          )
          (ap
            (λ b. some (
              record { exit_code = pos n; stderr = e ++ drop_newline tail; error = none },
              record (found (record sh { unread = scan_lines rest }) (e ++ drop_newline tail)) {
                broken = b;
              },
              (after env log law (record begun { broken = b }) false (ls ++ t ∷ []) w').0,
            ))
            p.usable.0),
      delivered-log env log law begun ls t w',
    )
