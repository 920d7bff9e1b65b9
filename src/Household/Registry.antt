-- ===== src/Household/Registry.antt =====
-- `HouseholdRegistry` of dotty-behaviour/household/registry.py.
use dotty_stackchan.Prelude.{
  ℕ, Char, code, String, Bool, true, false, not, ◌&&◌, ◌||◌, Option, none, some, List, [], ◌∷◌,
  ◌++◌, leb, nat_eq, if◌then◌else◌, is_empty, is_blank, strip, to_lower, after_prefix,
}
use dotty_stackchan.Dict.{Dict, lookup, insert}
use dotty_stackchan.Prelude.Texts.{text_length}
use dotty_stackchan.Household.Value.{Value, Runtime, normalise_calendar_prefix}
use dotty_stackchan.Household.Person.{Person, parse_person, default_person_fallback}

-- A document that is a mapping: its `default_person`, where that is true, and its `people`, where
-- that is a mapping. A member's entry is `none` where it is no mapping.
pub record Document : Type 0 where
  pub default_person : Option String
  pub people : Option (List (String × Option (Dict Value)))

-- The file at an access, with the time of its last change. Where reading it raises an `OSError` or
-- parsing it a `YAMLError`, which are caught, it is `unreadable`.
pub data File : Type 0 where
  missing : File
  unreadable : ℕ → File
  not_mapping : ℕ → File
  document : ℕ → Document → File

-- What an access meets: a file, or one where `_reload` raises another exception, which nothing there
-- catches, as the decoding of bytes that are no UTF-8 and the reading of a date that is none do.
pub data Sight : Type 0 where
  found : File → Sight
  undecodable : ℕ → Sight

pub record Registry : Type 0 where
  pub mtime : ℕ
  pub people : Dict Person
  pub default_person : String
  pub by_prefix : Dict String
  pub self_id : List (String × String)

abbrev pub empty_registry : ℕ → Registry
empty_registry mtime = record {
  mtime = mtime;
  people = [];
  default_person = default_person_fallback;
  by_prefix = [];
  self_id = [];
}

abbrev pub put_prefix : String → Option String → Dict String → Dict String
put_prefix person_id none prefixes = prefixes
put_prefix person_id (some prefix) prefixes =
    let key = normalise_calendar_prefix prefix in
    if is_blank prefix || is_blank key then prefixes else insert key person_id prefixes

-- The phrases of a member, in lower case, each with the member's id.
unfoldable pub phrases_of : String → List String → List (String × String)
unfolding to_lower strip
phrases_of person_id [] = []
phrases_of person_id (phrase ∷ phrases) =
    let norm = to_lower (strip phrase) in
    let rest = phrases_of person_id phrases in
    if is_blank norm then rest else (norm, person_id) ∷ rest

unfoldable pub put_person : Person → Registry → Registry
unfolding insert phrases_of
put_person p r = record r {
  people = insert p.id p r.people;
  by_prefix = put_prefix p.id p.calendar_prefix r.by_prefix;
  self_id = r.self_id ++ phrases_of p.id p.self_id_phrases;
}

unfoldable pub put_people : Runtime → List (String × Option (Dict Value)) → Registry → Registry
unfolding put_person parse_person
put_people t [] r = r
put_people t ((raw_id, entry) ∷ rest) r =
    put_people t rest (elim (parse_person t raw_id entry) [ none ↦ r | some p ↦ put_person p r ])

-- Before the first phrase that is not longer.
unfoldable pub place : String × String → List (String × String) → List (String × String)
place pair [] = pair ∷ []
place pair (other ∷ rest) =
    if leb (text_length other.0) (text_length pair.0)
    then pair ∷ other ∷ rest
    else other ∷ place pair rest

-- `self_id.sort(key=lambda pair: len(pair[0]), reverse=True)`, which keeps the order of equals.
unfoldable pub longest_first : List (String × String) → List (String × String)
unfolding place
longest_first [] = []
longest_first (pair ∷ pairs) = place pair (longest_first pairs)

abbrev pub or_fallback : Option String → String
or_fallback none = default_person_fallback
or_fallback (some s) = if is_blank s then default_person_fallback else s

abbrev pub people_block :
    Option (List (String × Option (Dict Value))) → List (String × Option (Dict Value))
people_block none = []
people_block (some people) = people

-- What `_reload` makes of a file at which it does not raise.
unfoldable pub load : Runtime → File → Registry
unfolding put_people longest_first
load t missing = empty_registry 0
load t (unreadable mtime) = empty_registry mtime
load t (not_mapping mtime) = empty_registry mtime
load t (document mtime d) =
    let r =
      put_people t (people_block d.people)
        (record (empty_registry mtime) { default_person = or_fallback d.default_person }) in
    record r { self_id = longest_first r.self_id }

-- `_reload`: `none` is the exception.
unfoldable pub reload : Runtime → Sight → Option Registry
reload t (found file) = some (load t file)
reload t (undecodable mtime) = none

abbrev pub changed_at : File → Option ℕ
changed_at missing = none
changed_at (unreadable mtime) = some mtime
changed_at (not_mapping mtime) = some mtime
changed_at (document mtime d) = some mtime

abbrev pub seen_at : Sight → Option ℕ
seen_at (found file) = changed_at file
seen_at (undecodable mtime) = some mtime

-- `_reload_if_changed`: where it raises, the registry stays as it was.
unfoldable pub reload_if_changed : Runtime → Sight → Registry → Option Registry
reload_if_changed t sight r = elim (seen_at sight) [
  | none ↦ some r
  | some mtime ↦ if nat_eq mtime r.mtime then some r else reload t sight
]

-- `get`, of a registry that is up to date, as for those below.
unfoldable pub get : Registry → String → Option Person
unfolding lookup to_lower
get r person_id = if is_blank person_id then none else lookup (to_lower person_id) r.people

-- `iter`
unfoldable pub members : Dict Person → List Person
members [] = []
members ((id, p) ∷ rest) = p ∷ members rest

-- `get_by_calendar_prefix`
unfoldable pub get_by_calendar_prefix : Registry → String → Option Person
unfolding lookup normalise_calendar_prefix
get_by_calendar_prefix r prefix =
    let key = normalise_calendar_prefix prefix in
    if is_blank key then none else elim (lookup key r.by_prefix) [
      | none ↦ none
      | some id ↦ if is_blank id then none else lookup id r.people
    ]

-- `_LEADING_PUNCT_RE.sub("", text)`: what is no letter or digit goes.
unfoldable pub drop_leading : (Char → Bool) → String → String
drop_leading is_alnum String.[] = String.[]
drop_leading is_alnum (String.◌∷◌ c s) =
    if is_alnum c then String.◌∷◌ c s else drop_leading is_alnum s

abbrev pub ends_phrase : (Char → Bool) → String → Bool
ends_phrase is_alnum String.[] = true
ends_phrase is_alnum (String.◌∷◌ c s) = not (is_alnum c) && not (nat_eq (code c) 95)

-- Whether the phrase stands at the start of the text, as whole words.
unfoldable pub leads : (Char → Bool) → String → String → Bool
unfolding after_prefix
leads is_alnum phrase s = elim (after_prefix phrase s) [
  | none ↦ false
  | some rest ↦ ends_phrase is_alnum rest
]

-- The owner of the first phrase that leads.
unfoldable pub first_led :
    (Char → Bool) → Dict Person → String → List (String × String) → Option Person
unfolding leads lookup
first_led is_alnum people s [] = none
first_led is_alnum people s ((phrase, id) ∷ rest) =
    if leads is_alnum phrase s then lookup id people else first_led is_alnum people s rest

-- `match_self_id`
unfoldable pub match_self_id : Runtime → Registry → String → Option Person
unfolding first_led drop_leading to_lower
match_self_id t r s =
    if is_blank s
    then none
    else if is_empty r.self_id
    then none
    else first_led t.is_alnum r.people (to_lower (drop_leading t.is_alnum s)) r.self_id
