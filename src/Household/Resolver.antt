-- ===== src/Household/Resolver.antt =====
-- `PersonResolver` of dotty-behaviour/household/resolver.py. The registry that it is given does not
-- raise.
use dotty_stackchan.Prelude.{
  Char, code, String, Bool, not, ◌&&◌, ◌||◌, Option, none, some, List, [], ◌∷◌, ◌==◌, nat_eq,
  if◌then◌else◌, keep, is_blank, strip, to_lower, is_space, join, words,
}
use dotty_stackchan.Household.Value.{without_brackets}
use dotty_stackchan.Household.Person.{Person}
use dotty_stackchan.Household.Registry.{Registry, get, members, get_by_calendar_prefix}

-- `_fold`
unfoldable pub fold : String → String
unfolding to_lower words join
fold s = join " " (words (to_lower s))

-- `_strip_brackets`
unfoldable pub strip_brackets : String → String
unfolding strip without_brackets
strip_brackets s = without_brackets (strip s)

-- White space and `.!?,:;`
abbrev is_trailing : Char → Bool
is_trailing c =
    is_space c
    || nat_eq (code c) 46
    || nat_eq (code c) 33
    || nat_eq (code c) 63
    || nat_eq (code c) 44
    || nat_eq (code c) 58
    || nat_eq (code c) 59

-- `_TRAILING_PUNCT_RE.sub("", name)`
unfoldable pub drop_trailing : String → String
unfolding is_space
drop_trailing String.[] = String.[]
drop_trailing (String.◌∷◌ c s) =
    let rest = drop_trailing s in
    if is_trailing c && is_blank rest then String.[] else String.◌∷◌ c rest

-- `resolve`
unfoldable pub resolve : Registry → String → Option Person
unfolding get to_lower strip
resolve r identity =
    let ident = strip identity in
    if is_blank identity || is_blank ident || to_lower ident == "unknown" then none else get r ident

-- The first member with the display name.
unfoldable pub by_display_name : String → List Person → Option Person
unfolding fold
by_display_name folded [] = none
by_display_name folded (p ∷ ps) =
    if fold p.display_name == folded then some p else by_display_name folded ps

abbrev pub or_else : Option Person → Option Person → Option Person
or_else none q = q
or_else (some p) q = some p

-- `resolve_vlm_name`
unfoldable pub resolve_vlm_name : Registry → String → Option Person
unfolding resolve by_display_name fold drop_trailing members
resolve_vlm_name r name =
    let folded = fold (drop_trailing name) in
    if is_blank name || is_blank folded || folded == "unknown"
    then none
    else or_else (resolve r folded) (by_display_name folded (members r.people))

-- `resolve_calendar_tag`
unfoldable pub resolve_calendar_tag : Registry → String → Option Person
unfolding resolve by_display_name fold strip_brackets members get_by_calendar_prefix
resolve_calendar_tag r tag =
    let bare = strip_brackets tag in
    if is_blank tag || is_blank bare
    then none
    else or_else (get_by_calendar_prefix r bare)
        (or_else (resolve r bare) (by_display_name (fold bare) (members r.people)))

abbrev unless_empty : List String → List String
unless_empty tags = keep (λ t. not (is_blank t)) tags

abbrev prefix_tag : Option String → List String
prefix_tag none = []
prefix_tag (some prefix) = if is_blank prefix then [] else fold (strip_brackets prefix) ∷ []

-- `calendar_tags`, as a list of what the set holds.
unfoldable pub calendar_tags : Registry → String → List String
unfolding resolve fold
calendar_tags r identity = elim (resolve r identity) [
  | none ↦ if fold identity == "unknown" then [] else unless_empty (fold identity ∷ [])
  | some p ↦ unless_empty (p.id ∷ fold p.display_name ∷ prefix_tag p.calendar_prefix)
]
