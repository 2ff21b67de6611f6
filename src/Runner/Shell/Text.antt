-- ===== src/Runner/Shell/Text.antt =====
-- runner/shell.go: bufio.ScanLines on what bash prints.
use cli_demo.Prelude.{
  ℕ, ◌≡◌, refl, false, List, [], ◌∷◌, ◌++◌, map, All, ◌==◌, nat_eq, if◌then◌else◌,
}
use cli_demo.Prelude.Bytes.{Bytes, newline}

abbrev cons_line : ℕ → List Bytes → List Bytes
cons_line c [] = (c ∷ []) ∷ []
cons_line c (l ∷ ls) = (c ∷ l) ∷ ls

split_lines : Bytes → List Bytes
split_lines [] = []
split_lines (c ∷ s) =
    let rest = split_lines s in if c == newline then [] ∷ rest else cons_line c rest

-- One carriage return before the end of a line is dropped.
abbrev drop_return : Bytes → Bytes
drop_return [] = []
drop_return (c ∷ []) = if c == 13 then [] else c ∷ []
drop_return (c ∷ d ∷ s) = c ∷ drop_return (d ∷ s)

unfoldable pub scan_lines : Bytes → List Bytes
unfolding split_lines
scan_lines s = map drop_return (split_lines s)

-- No end of line, and no carriage return.
abbrev pub IsPlain : Bytes → Type 0
IsPlain = All (λ c. ((c == newline) ≡ false) × ((c == 13) ≡ false))

split_lines-append :
    (l rest : Bytes) → IsPlain l → split_lines (l ++ newline ∷ rest) ≡ l ∷ split_lines rest
unfolding split_lines
split_lines-append [] rest h = refl
split_lines-append (c ∷ l) rest h = rw (h.0.0, split_lines-append l rest h.1) refl

drop_return-IsPlain : (l : Bytes) → IsPlain l → drop_return l ≡ l
drop_return-IsPlain [] h = refl
drop_return-IsPlain (c ∷ []) h = rw h.0.1 refl
drop_return-IsPlain (c ∷ d ∷ l) h = rw (drop_return-IsPlain (d ∷ l) h.1) refl

-- A line and its end are one line more.
pub scan_lines-append :
    (l rest : Bytes) → IsPlain l → scan_lines (l ++ newline ∷ rest) ≡ l ∷ scan_lines rest
unfolding scan_lines
scan_lines-append l rest h = rw (split_lines-append l rest h, drop_return-IsPlain l h) refl
