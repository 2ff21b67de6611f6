-- ===== src/Runner/Shell/Synchrony.antt =====
-- runner/shell.go: which lines of stdout a call leaves to the next one, also where the channel fails.
use mathlib.Core.Path.{subst}
use cli_demo.Prelude.{
  ℕ, ◌≡◌, refl, sym, ap, ◌∙◌, Bool, true, false, List, [], ◌∷◌, ◌++◌, Option, none, some, All, ◌≤◌,
  ◌-◌, ◌^◌, if◌then◌else◌,
}
use cli_demo.Prelude.Int.{ℤ, pos}
use cli_demo.Prelude.Bytes.{Bytes, split_first, strip_prefix, strip_prefix-append, decimal}
use cli_demo.Prelude.Bytes.Decimal.{atoi-decimal}
use cli_demo.GoError.{Error}
use cli_demo.Effect.{Result, ok, err}
use cli_demo.Runner.Shell.{
  Shell, Env, Outcome, sent, fresh_line, flushed, Scanned, marked, read_stderr, read_chunk,
  check_stderr_marker, stripped, marker_of, script_of, take_line, scan_stdout, exit_coded,
  await_stderr, done, scanned, written, in_context, armed, execute_stream,
}

-- The goroutine on stderr touches neither the lines nor `broken`.
abbrev Same : Shell → Shell → Type 0
Same sh sh' = (sh'.broken ≡ sh.broken) × (sh'.unread ≡ sh.unread)

stripped-Same : (sh : Shell) (o : Option (Bytes × Bytes)) → Same sh (stripped sh o)
unfolding stripped
stripped-Same sh none = (refl, refl)
stripped-Same sh (some x) = (refl, refl)

check_stderr_marker-Same : (sh : Shell) → Same sh (check_stderr_marker sh)
unfolding check_stderr_marker
check_stderr_marker-Same sh = go sh.stderr_marker refl
  where
    go : (m : Bytes) → sh.stderr_marker ≡ m → Same sh (check_stderr_marker sh)
    go [] e = rw (check_stderr_marker, e) (refl, refl)
    go (c ∷ m) e =
        rw (check_stderr_marker, e) (stripped-Same sh (split_first (c ∷ m) sh.stderr_buf))

read_stderr-Same : (cs : List Bytes) (sh : Shell) → Same sh (read_stderr cs sh)
unfolding read_stderr read_chunk
read_stderr-Same [] sh = (refl, refl)
read_stderr-Same (c ∷ cs) sh =
    let first = check_stderr_marker-Same (record sh { stderr_buf = sh.stderr_buf ++ c }) in
    let rest = read_stderr-Same cs (read_chunk c sh) in (rest.0 ∙ first.0, rest.1 ∙ first.1)

-- It does not look at `broken` either.
broken_as : Option Error → Shell → Shell
broken_as b sh = record sh { broken = b }

stripped-broken_as :
    (b : Option Error) (sh : Shell) (o : Option (Bytes × Bytes))
    → stripped (broken_as b sh) o ≡ broken_as b (stripped sh o)
unfolding stripped broken_as
stripped-broken_as b sh none = refl
stripped-broken_as b sh (some x) = refl

check_stderr_marker-broken_as :
    (b : Option Error) (sh : Shell)
    → check_stderr_marker (broken_as b sh) ≡ broken_as b (check_stderr_marker sh)
unfolding check_stderr_marker broken_as
check_stderr_marker-broken_as b sh = go sh.stderr_marker refl
  where
    go :
        (m : Bytes)
        → sh.stderr_marker ≡ m
        → check_stderr_marker (broken_as b sh) ≡ broken_as b (check_stderr_marker sh)
    go [] e = rw (check_stderr_marker, e) refl
    go (c ∷ m) e =
        rw (check_stderr_marker, e) (stripped-broken_as b sh (split_first (c ∷ m) sh.stderr_buf))

read_stderr-broken_as :
    (b : Option Error) (cs : List Bytes) (sh : Shell)
    → read_stderr cs (broken_as b sh) ≡ broken_as b (read_stderr cs sh)
unfolding read_stderr read_chunk broken_as
read_stderr-broken_as b [] sh = refl
read_stderr-broken_as b (c ∷ cs) sh =
    ap (read_stderr cs)
      (check_stderr_marker-broken_as b (record sh { stderr_buf = sh.stderr_buf ++ c }))
    ∙ read_stderr-broken_as b cs (read_chunk c sh)

broken_as-none : (sh : Shell) → (broken_as none sh).broken ≡ none
unfolding broken_as
broken_as-none sh = refl

broken_as-twice : (a b : Option Error) (sh : Shell) → broken_as b (broken_as a sh) ≡ broken_as b sh
unfolding broken_as
broken_as-twice a b sh = refl

-- The shell in the loop: it is broken exactly where a send failed, and otherwise as it was.
abbrev IsBrokenBy : Shell → Option Error → Shell → Type 0
IsBrokenBy sh e sh' = sh' ≡ broken_as e sh

module _ {W : Type 0} (env : Env W) where
  sent-IsBrokenBy :
      (sh : Shell) (r : Result (Unit {0}) × W)
      → sh.broken ≡ none
      → IsBrokenBy sh (sent env sh r).0.0 (sent env sh r).1.0
  unfolding sent broken_as
  sent-IsBrokenBy sh (ok u, w) h = rw (← h) refl
  sent-IsBrokenBy sh (err e, w) h = refl

  fresh_line-IsBrokenBy :
      (sh : Shell) (l : Bytes) (w : W)
      → sh.broken ≡ none
      → IsBrokenBy sh (fresh_line env sh l w).0.0 (fresh_line env sh l w).1.0
  unfolding fresh_line broken_as
  fresh_line-IsBrokenBy sh [] w h = rw (← h) refl
  fresh_line-IsBrokenBy sh (c ∷ cs) w h = sent-IsBrokenBy sh _ h

  flushed-IsBrokenBy :
      (sh : Shell) (l : Bytes) (r : Result (Unit {0}) × W)
      → sh.broken ≡ none
      → IsBrokenBy sh (flushed env sh l r).0.0 (flushed env sh l r).1.0
  unfolding flushed broken_as
  flushed-IsBrokenBy sh l (ok u, w) h = fresh_line-IsBrokenBy sh l w h
  flushed-IsBrokenBy sh l (err e, w) h = refl

  take_line-IsBrokenBy :
      (sh : Shell) (p : Bool) (l : Bytes) (w : W)
      → sh.broken ≡ none
      → IsBrokenBy sh (take_line env sh p l w).0.0 (take_line env sh p l w).1.0
  unfolding take_line
  take_line-IsBrokenBy sh false l w h = fresh_line-IsBrokenBy sh l w h
  take_line-IsBrokenBy sh true l w h = flushed-IsBrokenBy sh l _ h

  -- The loop ends at the marker with the lines after it, whatever was sent.
  abbrev Marked : Shell → Bytes → List Bytes → Scanned × (Shell × W) → Type 0
  Marked sh code rest r =
      (e : Option Error) × (w : W) × (r ≡ (marked code e rest, (broken_as e sh, w)))

  scan_stdout-Marked :
      (m : Bytes) (sh : Shell) (ls : List Bytes) (code : Bytes) (rest : List Bytes)
      (e : Option Error) (p : Bool) (w : W)
      → sh.broken ≡ none
      → All (λ l. strip_prefix m l ≡ none) ls
      → Marked sh code rest (scan_stdout env m (broken_as e sh) (ls ++ (m ++ code) ∷ rest) e p w)
  unfolding scan_stdout
  scan_stdout-Marked m sh [] code rest e p w b h =
      (e, w, rw (scan_stdout, strip_prefix-append m code) refl)
  scan_stdout-Marked m sh (l ∷ ls) code rest (some x) p w b h =
      let r = scan_stdout-Marked m sh ls code rest (some x) p w b h.1 in
      (r.0, r.1, rw (scan_stdout, h.0) r.2)
  scan_stdout-Marked m sh (l ∷ ls) code rest none p w b h =
      let t = take_line env (broken_as none sh) p l w in
      let k = take_line-IsBrokenBy (broken_as none sh) p l w (broken_as-none sh) in
      let r = scan_stdout-Marked m sh ls code rest t.0.0 t.0.1 t.1.1 b h.1 in
      (
        r.0,
        r.1,
        rw (scan_stdout, h.0)
            (ap (λ s. scan_stdout env m s (ls ++ (m ++ code) ∷ rest) t.0.0 t.0.1 t.1.1)
                (k ∙ broken_as-twice none t.0.0 sh)
              ∙ r.2),
      )

  -- A call that is over, with a shell that the next call can use, and these lines left.
  abbrev pub IsSynchronized : List Bytes → Option (Outcome × Shell × W) → Type 0
  IsSynchronized rest none = ⊥
  IsSynchronized rest (some (o, sh, w)) = (sh.broken ≡ none) × (sh.unread ≡ rest)

  done-IsSynchronized :
      (sh : Shell) (n : ℤ) (e : Option Error) (w : W)
      → sh.broken ≡ e
      → IsSynchronized sh.unread (done env sh n e w)
  unfolding done
  done-IsSynchronized sh n none w h = (h, refl)
  done-IsSynchronized sh n (some e) w h = (refl, refl)

  await_stderr-IsSynchronized :
      (sh : Shell) (n : ℤ) (e : Option Error) (w : W) (rest : List Bytes)
      → sh.stderr_done ≡ true
      → (sh.broken ≡ e) × (sh.unread ≡ rest)
      → IsSynchronized rest (await_stderr env sh n e w)
  unfolding await_stderr
  await_stderr-IsSynchronized sh n e w rest d h =
      subst (λ b. IsSynchronized rest (if b then done env sh n e w else none)) (sym d)
        (subst (λ ls. IsSynchronized ls (done env sh n e w)) h.1 (done-IsSynchronized sh n e w h.0))

  -- After the loop: the shell is broken where a send failed, until the end of the call.
  exit_coded-IsSynchronized :
      (sh : Shell) (n : ℤ) (e : Option Error) (w : W) (rest : List Bytes)
      → sh.broken ≡ none
      → (read_stderr (env.stderr_reads w) (record sh { unread = rest })).stderr_done ≡ true
      → IsSynchronized rest
          (exit_coded env (record (broken_as e sh) { unread = rest }) e w (some n))
  unfolding exit_coded broken_as
  exit_coded-IsSynchronized sh n e w rest b marks =
      let sh' = record sh { unread = rest } in
      let same = read_stderr-Same (env.stderr_reads w) (broken_as e sh') in
      await_stderr-IsSynchronized (read_stderr (env.stderr_reads w) (broken_as e sh')) n e w rest
        (ap (λ s. s.stderr_done) (read_stderr-broken_as e (env.stderr_reads w) sh') ∙ marks)
        (same.0, same.1)

  -- A call that gets to its loop.
  runs :
      (sh : Shell) (command : Bytes) (w w' : W) (x : Scanned × (Shell × W))
      → sh.broken ≡ none
      → env.context_error w ≡ none
      → env.write_stdin (script_of (marker_of (env.now w)) command) w ≡ (ok tt, w')
      → scan_stdout env
          (marker_of (env.now w))
          (armed (marker_of (env.now w)) sh)
          (sh.unread ++ (env.stdout w').lines)
          none
          false
          w'
        ≡ x
      → execute_stream env sh command w ≡ scanned env x
  unfolding execute_stream in_context written
  runs sh command w w' x usable in_time writes scan =
      begins (sh.broken) refl usable
      ∙ ap (λ o. in_context env command (armed (marker_of (env.now w)) sh) w o) in_time
      ∙ ap (λ r. written env (armed (marker_of (env.now w)) sh) r) writes
      ∙ ap (scanned env) scan
    where
      begins :
          (b : Option Error)
          → sh.broken ≡ b
          → b ≡ none
          → execute_stream env sh command w
            ≡ in_context env command (armed (marker_of (env.now w)) sh) w (env.context_error w)
      begins none e h =
          rw (execute_stream, e)
            (ap
              (λ b.
                in_context env command (record (armed (marker_of (env.now w)) sh) { broken = b }) w
                  (env.context_error w))
              e)
      begins (some x) e h = absurd (cc h)

  -- Where the command's marker comes on stdout with an exit code that an int64 holds, and
  -- comes on stderr too, the call is over, the shell is usable, also where a send that failed
  -- had broken it, and the next call begins with the line after the marker, whatever the
  -- channel took or refused. The shell was usable, nothing was unread, the context had no
  -- error, the script is written, and no line before the marker begins with it.
  pub execute_stream-IsSynchronized :
      (sh : Shell) (command : Bytes) (w w' : W) (ls : List Bytes) (n : ℕ) (rest : List Bytes)
      → (sh.broken ≡ none) × (sh.unread ≡ [])
      → env.context_error w ≡ none
      → env.write_stdin (script_of (marker_of (env.now w)) command) w ≡ (ok tt, w')
      → (env.stdout w').lines ≡ ls ++ (marker_of (env.now w) ++ decimal n) ∷ rest
      → All (λ l. strip_prefix (marker_of (env.now w)) l ≡ none) ls
      → n ≤ 2 ^ 63 - 1
      → ((v : W)
          → (read_stderr
              (env.stderr_reads v)
              (armed (marker_of (env.now w)) (record sh { unread = rest }))).stderr_done
            ≡ true)
      → IsSynchronized rest (execute_stream env sh command w)
  unfolding execute_stream in_context written scanned exit_coded broken_as
  execute_stream-IsSynchronized sh command w w' ls n rest usable in_time writes prints lines held
        marks =
      let m = marker_of (env.now w) in
      let begun = armed m sh in
      let whole : begun ≡ broken_as none begun = ap (λ b. broken_as b begun) usable.0 in
      let r = scan_stdout-Marked m begun ls (decimal n) rest none false w' usable.0 lines in
      let scan : scan_stdout env m begun (sh.unread ++ (env.stdout w').lines) none false w'
          ≡ (marked (decimal n) r.0 rest, (broken_as r.0 begun, r.1)) =
        ap (λ u. scan_stdout env m begun (u ++ (env.stdout w').lines) none false w') usable.1
        ∙ ap (λ u. scan_stdout env m begun u none false w') prints
        ∙ ap (λ s. scan_stdout env m s (ls ++ (m ++ decimal n) ∷ rest) none false w') whole
        ∙ r.2 in
      subst (IsSynchronized rest) (sym (runs sh command w w' _ usable.0 in_time writes scan)) (
        subst
          (λ x.
            IsSynchronized rest
              (exit_coded env (record (broken_as r.0 begun) { unread = rest }) r.0 r.1 x))
          (sym (atoi-decimal n held))
          (exit_coded-IsSynchronized begun (pos n) r.0 r.1 rest usable.0 (marks r.1)))
