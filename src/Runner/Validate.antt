-- ===== src/Runner/Validate.antt =====
-- runner/validate.go: which commands are run without asking the language model.
pub mod Whitelist
use cli_demo.Prelude.{
  String, Bool, true, false, not, ◌&&◌, ◌||◌, List, [], ◌∷◌, ◌==◌, string_eq, nat_eq, leb,
  if◌then◌else◌,
}
use Prim.Native.Char.{Char, code}
use Prim.Native.String
use text.Mathlib.Text.{starts_with}

-- unicode.IsSpace
unfoldable pub is_space : Char → Bool
is_space c =
    let n = code c in
    (leb 9 n && leb n 13)
    || (n == 32)
    || (n == 133)
    || (n == 160)
    || (n == 5760)
    || (leb 8192 n && leb n 8202)
    || (n == 8232)
    || (n == 8233)
    || (n == 8239)
    || (n == 8287)
    || (n == 12288)

trim_left : String → String
trim_left String.[] = ""
trim_left (String.◌∷◌ c s) = let rest = trim_left s in if is_space c then rest else String.◌∷◌ c s

trim_right : String → String
trim_right String.[] = ""
trim_right (String.◌∷◌ c s) =
    let rest = trim_right s in if is_space c && (rest == "") then "" else String.◌∷◌ c rest

-- strings.TrimSpace
unfoldable pub trim_space : String → String
unfolding trim_left trim_right
trim_space s = trim_right (trim_left s)

abbrev pub member : List String → String → Bool
member [] s = false
member (x ∷ xs) s = x == s || member xs s

abbrev pub whitelisted_commands : List String
whitelisted_commands = "ls" ∷ "pwd" ∷ "date" ∷ "whoami" ∷ "env" ∷ "tree" ∷ "uname" ∷ []

abbrev pub whitelisted_exact_commands : List String
whitelisted_exact_commands =
    "home-manager switch --rollback" ∷ "home-manager generations"
    ∷ "nix develop --command sh -c \"figlet 'Nix' | cowsay -n | lolcat -f\"" ∷ []

-- The characters of shellMetaChars: ; | & < > tab newline return and backquote.
unfoldable pub is_meta_char : Char → Bool
is_meta_char c =
    let n = code c in
    (n == 59)
    || (n == 124)
    || (n == 38)
    || (n == 60)
    || (n == 62)
    || (n == 9)
    || (n == 10)
    || (n == 13)
    || (n == 96)

opens_paren : String → Bool
opens_paren String.[] = false
opens_paren (String.◌∷◌ c s) = code c == 40

-- shellMetaChars.MatchString: one of them, or `$(`.
unfoldable pub has_meta : String → Bool
unfolding opens_paren
has_meta String.[] = false
has_meta (String.◌∷◌ c s) =
    let rest = has_meta s in is_meta_char c || ((code c == 36) && opens_paren s) || rest

unfoldable pub classify_command : String → String
classify_command cmd =
    let trimmed = trim_space cmd in
    if member whitelisted_commands trimmed
    then "whitelisted"
    else if member whitelisted_exact_commands trimmed
    then "whitelisted"
    else if starts_with trimmed "which " && not (has_meta trimmed)
    then "whitelisted"
    else if starts_with trimmed "nix run nixpkgs#" && not (has_meta trimmed)
    then "whitelisted"
    else "validated"
