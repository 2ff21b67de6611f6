-- ===== src/Runner/Shell/Stdout.antt =====
-- runner/shell.go: what the loop over stdout delivers before it meets the marker.
use cli_demo.Prelude.{
  ℕ, ◌≡◌, refl, sym, ap, ◌∙◌, Bool, true, false, List, [], ◌∷◌, ◌++◌, map, append_assoc, append-nil,
  Option, none, All, nat_eq,
}
use cli_demo.Prelude.Bytes.{Bytes, newline, strip_prefix, strip_prefix-append}
use cli_demo.GoError.{Error}
use cli_demo.Effect.{ok, wrapping}
use cli_demo.Runner.Shell.{
  Shell, Env, marked, send_line, sent, fresh_line, flushed, take_line, scan_stdout,
}

-- A channel that takes everything: no send fails, and `log` is what was sent.
pub record IsOpen {W : Type 0} (env : Env W) (log : W → List Bytes) : Type 0 where
  pub send_succeeds : (b : Bytes) (w : W) → (env.send b w).0 ≡ ok tt
  pub send_logs : (b : Bytes) (w : W) → log (env.send b w).1 ≡ log w ++ b ∷ []
  pub send_keeps_reads :
      (b : Bytes) (w : W) → env.stderr_reads (env.send b w).1 ≡ env.stderr_reads w

-- A line as it is sent.
abbrev pub with_newline : Bytes → Bytes
with_newline l = l ++ newline ∷ []

-- The empty line that is held back.
abbrev hold : Bool → List Bytes
hold true = (newline ∷ []) ∷ []
hold false = []

module _ {W : Type 0} (env : Env W) (log : W → List Bytes) (law : IsOpen env log) where
  -- The world and `pendingEmpty` after some lines.
  unfoldable pub after : Shell → Bool → List Bytes → W → W × Bool
  after sh p [] w = (w, p)
  after sh p (l ∷ ls) w = let r = take_line env sh p l w in after sh r.0.1 ls r.1.1

  record Taken (sh : Shell) (p : Bool) (l : Bytes) (w : W) (r : (Option Error × Bool) × (Shell × W))
      : Type 0 where
    no_error : r.0.0 ≡ none
    same_shell : r.1.0 ≡ sh
    logged : log r.1.1 ++ hold r.0.1 ≡ log w ++ (hold p ++ with_newline l ∷ [])
    same_reads : env.stderr_reads r.1.1 ≡ env.stderr_reads w

  fresh_line-Taken : (sh : Shell) (l : Bytes) (w : W) → Taken sh false l w (fresh_line env sh l w)
  unfolding fresh_line sent send_line wrapping
  fresh_line-Taken sh [] w = record {
    no_error = refl;
    same_shell = refl;
    logged = refl;
    same_reads = refl;
  }
  fresh_line-Taken sh (c ∷ cs) w =
      let b = with_newline (c ∷ cs) in
      rw (law.send_succeeds b w) (record {
        no_error = refl;
        same_shell = refl;
        logged = append-nil _ ∙ law.send_logs b w;
        same_reads = law.send_keeps_reads b w;
      })

  take_line-Taken :
      (sh : Shell) (p : Bool) (l : Bytes) (w : W) → Taken sh p l w (take_line env sh p l w)
  unfolding take_line flushed send_line wrapping
  take_line-Taken sh false l w = fresh_line-Taken sh l w
  take_line-Taken sh true l w =
      let next = fresh_line-Taken sh l (env.send (newline ∷ []) w).1 in
      rw (law.send_succeeds (newline ∷ []) w) (record {
        no_error = next.no_error;
        same_shell = next.same_shell;
        logged =
            next.logged
            ∙ ap (λ ls. ls ++ with_newline l ∷ []) (law.send_logs (newline ∷ []) w)
            ∙ append_assoc (log w) ((newline ∷ []) ∷ []) (with_newline l ∷ []);
        same_reads = next.same_reads ∙ law.send_keeps_reads (newline ∷ []) w;
      })

  module _ (sh : Shell) where
    -- The lines with what is held back before and after them.
    after-logged :
        (p : Bool) (ls : List Bytes) (w : W)
        → log (after sh p ls w).0 ++ hold (after sh p ls w).1
          ≡ log w ++ (hold p ++ map with_newline ls)
    unfolding after
    after-logged p [] w = ap (λ ls. log w ++ ls) (sym (append-nil (hold p)))
    after-logged p (l ∷ ls) w =
        let t = take_line-Taken sh p l w in
        let r = take_line env sh p l w in
        after-logged r.0.1 ls r.1.1
        ∙ sym (append_assoc (log r.1.1) (hold r.0.1) (map with_newline ls))
        ∙ ap (λ xs. xs ++ map with_newline ls) t.logged
        ∙ append_assoc (log w) (hold p ++ with_newline l ∷ []) (map with_newline ls)
        ∙ ap (λ xs. log w ++ xs) (append_assoc (hold p) (with_newline l ∷ []) (map with_newline ls))

    pub after-reads :
        (p : Bool) (ls : List Bytes) (w : W)
        → env.stderr_reads (after sh p ls w).0 ≡ env.stderr_reads w
    unfolding after
    after-reads p [] w = refl
    after-reads p (l ∷ ls) w =
        let r = take_line env sh p l w in
        after-reads r.0.1 ls r.1.1 ∙ (take_line-Taken sh p l w).same_reads

    after-append :
        (p : Bool) (ls ms : List Bytes) (w : W)
        → after sh p (ls ++ ms) w ≡ after sh (after sh p ls w).1 ms (after sh p ls w).0
    unfolding after
    after-append p [] ms w = refl
    after-append p (l ∷ ls) ms w = let r = take_line env sh p l w in after-append r.0.1 ls ms r.1.1

    -- An empty line sends what was held back before it, and is held back itself.
    after-empty : (p : Bool) (w : W) → log (after sh p ([] ∷ []) w).0 ≡ log w ++ hold p
    unfolding after take_line flushed send_line wrapping fresh_line
    after-empty false w = sym (append-nil (log w))
    after-empty true w =
        rw (after, law.send_succeeds (newline ∷ []) w) (law.send_logs (newline ∷ []) w)

    -- Another line is sent at once.
    after-full : (p : Bool) (c : ℕ) (l : Bytes) (w : W) → (after sh p ((c ∷ l) ∷ []) w).1 ≡ false
    unfolding after take_line flushed send_line wrapping fresh_line sent
    after-full false c l w = rw (after, law.send_succeeds (with_newline (c ∷ l)) w) refl
    after-full true c l w =
        rw
          (
            after,
            law.send_succeeds (newline ∷ []) w,
            law.send_succeeds (with_newline (c ∷ l)) (env.send (newline ∷ []) w).1,
          )
          refl

    -- The loop ends at the marker, after the lines before it, and leaves the shell as it was.
    pub scan_stdout-marked :
        (m : Bytes) (ls : List Bytes) (code : Bytes) (rest : List Bytes) (p : Bool) (w : W)
        → All (λ l. strip_prefix m l ≡ none) ls
        → scan_stdout env m sh (ls ++ (m ++ code) ∷ rest) none p w
          ≡ (marked code none rest, (sh, (after sh p ls w).0))
    unfolding scan_stdout after
    scan_stdout-marked m [] code rest p w h = rw (scan_stdout, strip_prefix-append m code) refl
    scan_stdout-marked m (l ∷ ls) code rest p w h =
        let t = take_line-Taken sh p l w in
        let r = take_line env sh p l w in
        rw (scan_stdout, h.0, t.no_error, t.same_shell)
          (scan_stdout-marked m ls code rest r.0.1 r.1.1 h.1)

    -- The lines and one empty line: the lines are sent.
    pub after-lines :
        (ls : List Bytes) (w : W)
        → log (after sh false (ls ++ [] ∷ []) w).0 ≡ log w ++ map with_newline ls
    after-lines ls w =
        ap (λ r. log r.0) (after-append false ls ([] ∷ []) w)
        ∙ after-empty (after sh false ls w).1 (after sh false ls w).0
        ∙ after-logged false ls w

    -- The lines and one that is not empty: all are sent.
    pub after-last :
        (ls : List Bytes) (c : ℕ) (l : Bytes) (w : W)
        → log (after sh false (ls ++ (c ∷ l) ∷ []) w).0
          ≡ log w ++ map with_newline (ls ++ (c ∷ l) ∷ [])
    after-last ls c l w =
        let held : (after sh false (ls ++ (c ∷ l) ∷ []) w).1 ≡ false =
          ap (λ r. r.1) (after-append false ls ((c ∷ l) ∷ []) w)
          ∙ after-full (after sh false ls w).1 c l (after sh false ls w).0 in
        sym (ap (λ p. log (after sh false (ls ++ (c ∷ l) ∷ []) w).0 ++ hold p) held ∙ append-nil _)
        ∙ after-logged false (ls ++ (c ∷ l) ∷ []) w
