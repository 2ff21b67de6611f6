-- ===== src/Runner/Validate/Whitelist.antt =====
-- runner/validate.go: commands with metacharacters on the way through the whitelist.
use Prim.Native.Char.{Char}
use text.Mathlib.TextLemmas.{nil-append, cons-append}
use mathlib.Core.Bool.{true≢false}
use cli_demo.Prelude.{
  String, ◌<>◌, ◌≡◌, refl, sym, ap, ◌∙◌, Bool, true, false, inl, inr, List, [], ◌∷◌, ◌==◌,
  string_eq, nat_eq, arith, eq_iff, Bool-cases, All,
}
use cli_demo.Runner.Validate.{
  trim_space, member, whitelisted_commands, whitelisted_exact_commands, is_meta_char, opens_paren,
  has_meta, classify_command,
}

has_meta-append :
    (a : String) (c : Char) (b : String)
    → is_meta_char c ≡ true
    → has_meta (a <> String.◌∷◌ c b) ≡ true
unfolding has_meta
has_meta-append String.[] c b h = rw (nil-append, h) refl
has_meta-append (String.◌∷◌ x a) c b h =
    rw (cons-append x a (String.◌∷◌ c b)) (ground (arith, has_meta-append a c b h))

-- No entry of the list has a test that `s` passes.
member-All :
    (p : String → Bool) (xs : List String) (s : String)
    → All (λ x. p x ≡ false) xs
    → p s ≡ true
    → member xs s ≡ false
member-All p [] s h e = refl
member-All p (x ∷ xs) s h e = elim (Bool-cases (x == s)) [
  | inl same ↦ absurd (true≢false (sym e ∙ ap p (sym ((eq_iff x s).0 same)) ∙ h.0))
  | inr differs ↦ rw differs (member-All p xs s h.1 e)
]

plain_commands : All (λ x. has_meta x ≡ false) whitelisted_commands
unfolding has_meta is_meta_char opens_paren
plain_commands = (refl, (refl, (refl, (refl, (refl, (refl, (refl, tt)))))))

-- A command with one of the watched metacharacters anywhere in it, after the space around it is
-- removed, is classified as to be validated, unless it is one of the exact commands of the
-- whitelist.
pub classify_command-meta :
    (cmd a b : String) (c : Char)
    → trim_space cmd ≡ a <> String.◌∷◌ c b
    → is_meta_char c ≡ true
    → member whitelisted_exact_commands (trim_space cmd) ≡ false
    → classify_command cmd ≡ "validated"
unfolding classify_command
classify_command-meta cmd a b c e h exact =
    let meta : has_meta (trim_space cmd) ≡ true = ap has_meta e ∙ has_meta-append a c b h in
    let bare : member whitelisted_commands (trim_space cmd) ≡ false =
      member-All has_meta whitelisted_commands (trim_space cmd) plain_commands meta in
    rw (bare, exact, meta) (ground arith)
