-- ===== src/Presenter/Poll/SortKey.antt =====
-- The sort keys of ballots, `visitorID + "#" + choice`, and strings.SplitN(key, "#", 2), by which
-- get.go takes the choice out again.
use Prim.Native.Char.{Char, code}
use text.Mathlib.TextLemmas.{nil-append, cons-append}
use cli_demo.Prelude.{
  String, ◌<>◌, ◌≡◌, refl, Bool, true, false, List, [], ◌∷◌, Option, none, some, arith, ◌==◌,
  nat_eq, if◌then◌else◌,
}

-- The text before and after the first `#`, if there is one.
prepend : Char → Option (String × String) → Option (String × String)
prepend c none = none
prepend c (some (a, b)) = some (String.◌∷◌ c a, b)

cut : String → Option (String × String)
unfolding prepend
cut String.[] = none
cut (String.◌∷◌ c r) = let rest = cut r in if code c == b'#' then some ("", r) else prepend c rest

parts : String → Option (String × String) → List String
parts key none = key ∷ []
parts key (some (a, b)) = a ∷ b ∷ []

-- strings.SplitN(key, "#", 2)
unfoldable pub split_n : String → List String
unfolding cut parts
split_n key = parts key (cut key)

second : List String → Option String
second (a ∷ b ∷ []) = some b
second _ = none

-- parts[1], where there are two parts
unfoldable pub choice_of : String → Option String
unfolding second split_n
choice_of key = second (split_n key)

-- A visitor id with no `#` in it: API Gateway's connection ids are of this kind.
unfoldable pub has_hash : String → Bool
has_hash String.[] = false
has_hash (String.◌∷◌ c r) = let rest = has_hash r in if code c == b'#' then true else rest

cut_at_hash : (c : String) → cut ("#" <> c) ≡ some ("", c)
unfolding cut
cut_at_hash c = rw (cons-append _ String.[] c, nil-append)

cut-ballot :
    (visitor choice : String)
    → has_hash visitor ≡ false
    → cut (visitor <> "#" <> choice) ≡ some (visitor, choice)
unfolding cut has_hash
cut-ballot String.[] c h = rw nil-append (cut_at_hash c)
cut-ballot (String.◌∷◌ x v) c h = rw (cons-append x v ("#" <> c)) (ground (arith, cut-ballot v c))

pub has_hash-ballot : (visitor choice : String) → has_hash (visitor <> "#" <> choice) ≡ true
unfolding has_hash
has_hash-ballot String.[] c = rw (nil-append, cons-append _ String.[] c) refl
has_hash-ballot (String.◌∷◌ x v) c =
    rw (cons-append x v ("#" <> c)) (ground (arith, has_hash-ballot v c))

-- Splitting the sort key of a ballot gives the choice that was voted for, whatever the choice
-- has in it, where the visitor's id has no `#`.
pub choice_of-ballot :
    (visitor choice : String)
    → has_hash visitor ≡ false
    → choice_of (visitor <> "#" <> choice) ≡ some choice
unfolding choice_of
choice_of-ballot v c h = rw (cut-ballot v c h)
