-- ===== src/Household/Person.antt =====
-- `Person` of dotty-behaviour/household/registry.py, and how an entry of the file becomes one.
use dotty_stackchan.Prelude.{
  ℕ, ◌-◌, String, ◌||◌, Option, none, some, List, [], ◌∷◌, ◌++◌, ◌==◌, ltb, if◌then◌else◌, take,
  is_blank, strip, to_lower, rstrip, ℤ, append, join, take_chars,
}
use dotty_stackchan.Dict.{Dict, lookup, insert}
use dotty_stackchan.Prelude.Texts.{text_length}
use dotty_stackchan.Household.Value.{
  Date, Times, several, single, no_times, Value, null, date, datetime, mapping, Runtime, str,
  is_truthy, opt_str, opt_int, to_str_tuple,
}

-- A birthdate is a `date`, or a `datetime`, which is one as well.
pub data Birthdate : Type 0 where
  on_day : Date → Birthdate
  at_moment : Date → Birthdate

pub record Person : Type 0 where
  pub id : String
  pub display_name : String
  pub relation : Option String
  pub pronouns : Option String
  pub age : Option ℤ
  pub birthdate : Option Birthdate
  pub appearance : Option String
  pub voice : Option String
  pub personality : Option String
  pub interests : List String
  pub family_context : Option String
  pub notes : Option String
  pub do_not : List String
  pub self_id_phrases : List String
  pub usual_times : Dict (List String)
  pub calendar_prefix : Option String
  pub voice_print_id : Option String

-- `DEFAULT_PERSON_FALLBACK`
abbrev pub default_person_fallback : String
default_person_fallback = "_household"

abbrev non_blank_or : String → String → String
non_blank_or default s = if is_blank s then default else s

-- `str(entry.get("display_name") or raw_id).strip() or raw_id`
unfoldable pub display_name_of : Runtime → String → Option Value → String
unfolding strip
display_name_of r raw_id none = non_blank_or raw_id (strip raw_id)
display_name_of r raw_id (some v) =
    non_blank_or raw_id (strip (if is_truthy v then str r v else raw_id))

unfoldable pub birthdate_of : Runtime → Option Value → Option Birthdate
birthdate_of r none = none
birthdate_of r (some null) = none
birthdate_of r (some (date d)) = some (on_day d)
birthdate_of r (some (datetime d)) = some (at_moment d)
birthdate_of r (some v) = elim (r.from_isoformat (str r v)) [
  | none ↦ none
  | some d ↦ some (on_day d)
]

unfoldable pub put_times : Dict Times → Dict (List String) → Dict (List String)
unfolding insert
put_times [] acc = acc
put_times ((key, several vals) ∷ rest) acc = put_times rest (insert key vals acc)
put_times ((key, single val) ∷ rest) acc = put_times rest (insert key (val ∷ []) acc)
put_times ((key, no_times) ∷ rest) acc = put_times rest acc

unfoldable pub usual_times_of : Option Value → Dict (List String)
unfolding put_times
usual_times_of (some (mapping d)) = put_times d []
usual_times_of _ = []

-- The member of an entry with the given id and age.
unfoldable pub person_of : Runtime → String → String → Dict Value → Option ℤ → Person
unfolding lookup
person_of r raw_id person_id entry age = record {
  id = person_id;
  display_name = display_name_of r raw_id (lookup "display_name" entry);
  relation = opt_str r (lookup "relation" entry);
  pronouns = opt_str r (lookup "pronouns" entry);
  age = age;
  birthdate = birthdate_of r (lookup "birthdate" entry);
  appearance = opt_str r (lookup "appearance" entry);
  voice = opt_str r (lookup "voice" entry);
  personality = opt_str r (lookup "personality" entry);
  interests = to_str_tuple (lookup "interests" entry);
  family_context = opt_str r (lookup "family_context" entry);
  notes = opt_str r (lookup "notes" entry);
  do_not = to_str_tuple (lookup "do_not" entry);
  self_id_phrases = to_str_tuple (lookup "self_id_phrases" entry);
  usual_times = usual_times_of (lookup "usual_times" entry);
  calendar_prefix = opt_str r (lookup "calendar_prefix" entry);
  voice_print_id = opt_str r (lookup "voice_print_id" entry);
}

-- `_parse_person`, and that an entry is left out as malformed where it raises; `none` is an entry
-- that is no mapping.
unfoldable pub parse_person : Runtime → String → Option (Dict Value) → Option Person
unfolding person_of to_lower strip
parse_person r raw_id none = none
parse_person r raw_id (some entry) =
    let person_id = to_lower (strip raw_id) in
    if is_blank person_id || person_id == default_person_fallback
    then none
    else elim (opt_int r (lookup "age" entry)) [
      | none ↦ none
      | some age ↦ some (person_of r raw_id person_id entry age)
    ]

abbrev age_or_relation : Runtime → Person → List String
age_or_relation r p = elim p.age [
  | some n ↦ append (r.show_int n) "yo" ∷ []
  | none ↦ elim p.relation [ none ↦ [] | some s ↦ if is_blank s then [] else s ∷ [] ]
]

abbrev personality_part : Option String → List String
personality_part none = []
personality_part (some s) = if is_blank s then [] else s ∷ []

abbrev loves : List String → List String
loves [] = []
loves (i ∷ is) = append "loves " (join ", " (take 3 (i ∷ is))) ∷ []

abbrev meta_part : List String → String
meta_part [] = ""
meta_part (m ∷ ms) = append " — " (join "; " (m ∷ ms))

-- `compact_description`
unfoldable pub compact_description : Runtime → ℕ → Person → String
unfolding append join strip rstrip take_chars
compact_description r max_chars p =
    let out = strip (
      append p.display_name
        (meta_part (age_or_relation r p ++ personality_part p.personality ++ loves p.interests))) in
    if ltb max_chars (text_length out)
    then append (rstrip (take_chars (max_chars - 1) out)) "…"
    else out
