-- ===== src/Household/Value.antt =====
-- What household.yaml holds, as `household/registry.py` reads it, and its conversions.
use dotty_stackchan.Prelude.{
  ℕ, Char, code, String, Bool, true, false, not, ◌&&◌, Option, none, some, List, [], ◌∷◌, nat_eq,
  if◌then◌else◌, is_empty, is_blank, strip, to_lower, ℤ,
}
use dotty_stackchan.Dict.{Dict}
use dotty_stackchan.Prelude.Texts.{first_char, last_char, drop_last, tail_chars}

pub record Date : Type 0 where
  pub year : ℕ
  pub month : ℕ
  pub day : ℕ

-- An entry of `usual_times`: a list, as the texts of its items, a text, or anything else.
pub data Times : Type 0 where
  several : List String → Times
  single : String → Times
  no_times : Times

-- A value of a member's mapping: a list is the texts of its items, and a scalar is any other value,
-- by its truth and its text.
pub data Value : Type 0 where
  null : Value
  text : String → Value
  date : Date → Value
  datetime : Date → Value
  items : List String → Value
  mapping : Dict Times → Value
  scalar : Bool → String → Value

-- What the code uses of Python: `str.isalnum`, `str` of a value and of an age, `int`, which may
-- refuse a value or raise another exception, and `date.fromisoformat`.
pub record Runtime : Type 0 where
  pub is_alnum : Char → Bool
  pub show : Value → String
  pub show_int : ℤ → String
  pub int : Value → Option (Option ℤ)
  pub from_isoformat : String → Option Date

-- `str(v)`
abbrev pub str : Runtime → Value → String
str r (text s) = s
str r (scalar truth s) = s
str r v = r.show v

abbrev pub is_truthy : Value → Bool
is_truthy null = false
is_truthy (text s) = not (is_blank s)
is_truthy (date d) = true
is_truthy (datetime d) = true
is_truthy (items xs) = not (is_empty xs)
is_truthy (mapping d) = not (is_empty d)
is_truthy (scalar truth s) = truth

abbrev unless_blank : String → Option String
unless_blank s = if is_blank s then none else some s

-- `_opt_str(entry.get(key))`
unfoldable pub opt_str : Runtime → Option Value → Option String
unfolding strip
opt_str r none = none
opt_str r (some null) = none
opt_str r (some v) = unless_blank (strip (str r v))

-- `_opt_int(entry.get(key))`; the outer `none` is an exception that it does not catch.
unfoldable pub opt_int : Runtime → Option Value → Option (Option ℤ)
opt_int r none = some none
opt_int r (some null) = some none
opt_int r (some (text s)) = if is_blank s then some none else r.int (text s)
opt_int r (some v) = r.int v

abbrev onto_first : Char → List String → List String
onto_first c [] = String.◌∷◌ c String.[] ∷ []
onto_first c (w ∷ ws) = String.◌∷◌ c w ∷ ws

-- `s.split(",")`
abbrev pub split_commas : String → List String
split_commas String.[] = "" ∷ []
split_commas (String.◌∷◌ c s) =
    let rest = split_commas s in if nat_eq (code c) 44 then "" ∷ rest else onto_first c rest

-- The stripped texts that are not blank.
unfoldable pub stripped : List String → List String
unfolding strip
stripped [] = []
stripped (s ∷ ss) = let rest = stripped ss in if is_blank (strip s) then rest else strip s ∷ rest

-- `_to_str_tuple(entry.get(key))`
unfoldable pub to_str_tuple : Option Value → List String
unfolding stripped
to_str_tuple (some (text s)) = stripped (split_commas s)
to_str_tuple (some (items xs)) = stripped xs
to_str_tuple _ = []

abbrev pub is_bracketed : String → Bool
is_bracketed s =
    (elim (first_char s) [ none ↦ false | some c ↦ nat_eq (code c) 91 ])
    && (elim (last_char s) [ none ↦ false | some c ↦ nat_eq (code c) 93 ])

-- `value[1:-1].strip()` of a text in brackets.
unfoldable pub without_brackets : String → String
unfolding strip
without_brackets s = if is_bracketed s then strip (drop_last (tail_chars s)) else s

-- `_normalise_calendar_prefix`
unfoldable pub normalise_calendar_prefix : String → String
unfolding to_lower strip without_brackets
normalise_calendar_prefix s = without_brackets (to_lower (strip s))
