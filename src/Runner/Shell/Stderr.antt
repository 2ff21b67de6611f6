-- ===== src/Runner/Shell/Stderr.antt =====
-- runner/shell.go: the goroutine on stderr, read by read.
use cli_demo.Prelude.{
  ℕ, ◌≡◌, refl, sym, ap, ◌∙◌, true, List, [], ◌∷◌, ◌++◌, append_assoc, none, some, nat_eq,
}
use cli_demo.Prelude.Bytes.{Bytes, split_first}
use cli_demo.Prelude.Bytes.Splitting.{split_first-none}
use cli_demo.Runner.Shell.{
  Shell, drop_newline, armed, stripped, check_stderr_marker, read_chunk, read_stderr,
}

-- What the reads give together.
unfoldable pub joined : List Bytes → Bytes
joined [] = []
joined (c ∷ cs) = c ++ joined cs

-- A shell that looks for a marker that is not empty.
abbrev pub looking : Shell → ℕ → Bytes → Bytes → Shell
looking sh k m buf = record sh { stderr_buf = buf; stderr_marker = k ∷ m }

abbrev pub found : Shell → Bytes → Shell
found sh buf = record sh { stderr_buf = buf; stderr_marker = []; stderr_done = true }

read_chunk-none :
    (sh : Shell) (k : ℕ) (m buf c : Bytes)
    → split_first (k ∷ m) (buf ++ c) ≡ none
    → read_chunk c (looking sh k m buf) ≡ looking sh k m (buf ++ c)
unfolding read_chunk check_stderr_marker stripped
read_chunk-none sh k m buf c h = rw (read_chunk, check_stderr_marker, h) refl

read_chunk-some :
    (sh : Shell) (k : ℕ) (m buf c e after : Bytes)
    → split_first (k ∷ m) (buf ++ c) ≡ some (e, after)
    → read_chunk c (looking sh k m buf) ≡ found sh (e ++ drop_newline after)
unfolding read_chunk check_stderr_marker stripped
read_chunk-some sh k m buf c e after h = rw (read_chunk, check_stderr_marker, h) refl

-- Reads that do not complete the marker, and one that does.
read_stderr-last :
    (sh : Shell) (k : ℕ) (m buf : Bytes) (cs : List Bytes) (c e after : Bytes)
    → split_first (k ∷ m) (buf ++ joined cs) ≡ none
    → split_first (k ∷ m) (buf ++ (joined cs ++ c)) ≡ some (e, after)
    → read_stderr (cs ++ c ∷ []) (looking sh k m buf) ≡ found sh (e ++ drop_newline after)
unfolding joined read_stderr
read_stderr-last sh k m buf [] c e after h g = read_chunk-some sh k m buf c e after g
read_stderr-last sh k m buf (d ∷ cs) c e after h g =
    let earlier = ap (split_first (k ∷ m)) (append_assoc buf d (joined cs)) ∙ h in
    ap (read_stderr (cs ++ c ∷ []))
      (read_chunk-none sh k m buf d (split_first-none k m (buf ++ d) (joined cs) earlier))
    ∙ read_stderr-last sh k m (buf ++ d) cs c e after earlier (
        ap (split_first (k ∷ m)) (
          append_assoc buf d (joined cs ++ c)
          ∙ ap (λ s. buf ++ s) (sym (append_assoc d (joined cs) c)))
        ∙ g)

-- However stderr is cut into reads, once the first occurrence of the marker is complete with the
-- last of them, the buffer is the text before the marker and the rest of that read, without a
-- line end right after the marker; the wait for stderr is over, and no marker is looked for any
-- more.
pub read_stderr-armed :
    (sh : Shell) (k : ℕ) (m : Bytes) (cs : List Bytes) (c e after : Bytes)
    → split_first (k ∷ m) (joined cs) ≡ none
    → split_first (k ∷ m) (joined cs ++ c) ≡ some (e, after)
    → read_stderr (cs ++ c ∷ []) (armed (k ∷ m) sh) ≡ found sh (e ++ drop_newline after)
read_stderr-armed sh k m cs c e after = read_stderr-last (armed (k ∷ m) sh) k m [] cs c e after
