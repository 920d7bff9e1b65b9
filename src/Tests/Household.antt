-- ===== src/Tests/Household.antt =====
-- Runs of the household, and its theorems at concrete inputs.
use dotty_stackchan.Prelude.{
  ℕ, Char, code, String, ◌≡◌, refl, ap, inr, List, Bool, ◌&&◌, ◌||◌, Option, none, some, [], ◌∷◌,
  map, arith, leb, nat_eq, if◌then◌else◌, strip, to_lower, append, join, words, after_prefix,
  contains,
}
use dotty_stackchan.Dict.{Dict, lookup, insert}
use dotty_stackchan.Prelude.Texts.{is_space_code}
use dotty_stackchan.Household.Value.{
  Value, text, items, datetime, Date, Runtime, opt_int, to_str_tuple, stripped,
}
use dotty_stackchan.Household.Person.{
  Person, parse_person, person_of, display_name_of, birthdate_of, on_day,
}
use dotty_stackchan.Household.Birthday.{
  days_until_birthday, birthday_in, first_of, days_to, ordinal, days_before_year, days_before_month,
  is_leap,
}
use dotty_stackchan.Household.NextBirthday.{IsNext, days_until_birthday-IsNext}
use dotty_stackchan.Household.Registry.{
  File, Sight, found, undecodable, reload, reload_if_changed, missing, document, load, put_people,
  put_person, phrases_of, longest_first, place, members, match_self_id, first_led, drop_leading,
  leads,
}
use dotty_stackchan.Household.Resolver.{
  fold, drop_trailing, resolve, resolve_vlm_name, by_display_name,
}
use dotty_stackchan.Household.RoomView.{Groups, view_of, parse_room_view_response}
use dotty_stackchan.Household.SelfId.{IsAnswer, match_self_id-longest}
use dotty_stackchan.Household.Names.{IsSeen, resolve-load, parse_room_view_response-IsSeen}
use dotty_stackchan.Household.Reload.{accesses, accesses-newest}

abbrev is_letter : Char → Bool
is_letter c = leb 97 (code c) && leb (code c) 122 || leb 65 (code c) && leb (code c) 90

abbrev runtime : Runtime
runtime = record {
  is_alnum = is_letter;
  show = λ v. "";
  show_int = λ n. "7";
  int = λ v. some none;
  from_isoformat = λ s. none;
}

abbrev hudson : Dict Value
hudson =
    ("display_name", text "Hudson")
    ∷ ("appearance", text "Short brown hair")
    ∷ ("self_id_phrases", items ("I'm Hudson" ∷ "I'm" ∷ []))
    ∷ []

abbrev mary : Dict Value
mary =
    ("display_name", text "Mary Anne")
    ∷ ("self_id_phrases", text "Mary here, I'm Mary")
    ∷ ("calendar_prefix", text "[Mary]")
    ∷ []

abbrev family : File
family = document 5 (record {
  default_person = none;
  people = some (
      (" Hudson ", some hudson)
      ∷ ("mom", some mary)
      ∷ ("_household", some mary)
      ∷ ("pet", none)
      ∷ []);
})

ids_of_family : map (λ p. p.id) (members (load runtime family).people) ≡ "hudson" ∷ "mom" ∷ []
unfolding load put_people put_person parse_person person_of members insert lookup strip to_lower
    opt_int
ids_of_family = refl

phrases_by_length :
    map (λ pair. pair.0) (load runtime family).self_id
    ≡ "i'm hudson" ∷ "mary here" ∷ "i'm mary" ∷ "i'm" ∷ []
unfolding load put_people put_person parse_person person_of phrases_of longest_first place insert
    lookup strip to_lower opt_int to_str_tuple stripped
phrases_by_length = refl

found_by_phrase :
    map
      (λ s. elim (match_self_id runtime (load runtime family) s) as (λ o. String) [
        | none ↦ ""
        | some p ↦ p.id
      ])
      ("... I'm Mary!" ∷ "I'm maryanne" ∷ "we are" ∷ [])
    ≡ "mom" ∷ "hudson" ∷ "" ∷ []
unfolding load put_people put_person parse_person person_of phrases_of longest_first place insert
    lookup strip to_lower opt_int to_str_tuple stripped match_self_id first_led drop_leading leads
    after_prefix
found_by_phrase = refl

match_self_id-longest_example :
    IsAnswer is_letter
      (to_lower (drop_leading is_letter "... I'm Mary!"))
      (load runtime family).self_id
      (match_self_id runtime (load runtime family) "... I'm Mary!")
match_self_id-longest_example = match_self_id-longest runtime family "... I'm Mary!" refl

abbrev groups_of : String → Option Groups
groups_of s =
    if contains "NAME" s then some ("a woman at the table", "Mary Anne", some "tired") else none

seen_at_table :
    parse_room_view_response groups_of
      (load runtime family)
      "DESC: a woman at the table | NAME: Mary Anne"
    ≡ record {
      description = some "a woman at the table";
      person_id = some "mom";
      mood = some "tired";
    }
unfolding load put_people put_person parse_person person_of members insert lookup strip to_lower
    opt_int contains view_of parse_room_view_response resolve_vlm_name resolve by_display_name fold
    drop_trailing words join append display_name_of after_prefix is_space_code
seen_at_table = refl

parse_room_view_response-IsSeen_example :
    IsSeen groups_of (load runtime family) "DESC: a woman at the table | NAME: Mary Anne" "mom"
parse_room_view_response-IsSeen_example =
    parse_room_view_response-IsSeen runtime family groups_of
      "DESC: a woman at the table | NAME: Mary Anne" "mom" (ap (λ v. v.person_id) seen_at_table)

abbrev a_hudson : Person
a_hudson = person_of runtime " Hudson " "hudson" hudson none

resolve-load_example : resolve (load runtime family) " HUDSON" ≡ some a_hudson
unfolding parse_person to_lower strip lookup opt_int
resolve-load_example =
    resolve-load runtime 5 none []
      (("mom", some mary) ∷ ("_household", some mary) ∷ ("pet", none) ∷ []) " Hudson " (some hudson)
      a_hudson " HUDSON" refl (inr refl, (inr refl, (inr refl, tt))) refl refl

abbrev smaller : File
smaller = document 9 (record { default_person = some "hudson"; people = some [] })

abbrev version : ℕ → Sight
version n = if nat_eq n 5 then found family else if nat_eq n 7 then undecodable 7 else found smaller

abbrev sights : List Sight
sights = found missing ∷ undecodable 7 ∷ found family ∷ found smaller ∷ undecodable 7 ∷ []

-- The file is changed to bytes that are no text.
raised_and_kept : reload_if_changed runtime (undecodable 7) (load runtime smaller) ≡ none
unfolding reload_if_changed reload load put_people longest_first
raised_and_kept = refl

accesses-newest_example : accesses runtime sights (load runtime family) ≡ load runtime smaller
accesses-newest_example = accesses-newest runtime version family sights (
  (refl, λ e. absurd (omega (arith, e))),
  (
    tt,
    (
      (refl, λ e. absurd (omega (arith, e))),
      (
        (refl, λ e. absurd (omega (arith, e))),
        ((refl, λ e. absurd (omega (arith, e))), ((refl, λ e. absurd (omega (arith, e))), tt)),
      ),
    ),
  ),
)

abbrev born_on_leap_day : Date
born_on_leap_day = record { year = 2016; month = 2; day = 29 }

abbrev spring : Date
spring = record { year = 2025; month = 3; day = 1 }

abbrev leapling : Person
leapling = record a_hudson { birthdate = some (on_day born_on_leap_day) }

days_left : days_until_birthday spring leapling ≡ some (some 364)
unfolding days_until_birthday birthday_in first_of days_to ordinal days_before_year
    days_before_month is_leap
days_left = refl

-- With a `datetime` as the birthdate, the days are not told.
no_days_left :
    days_until_birthday spring
      (record a_hudson { birthdate = birthdate_of runtime (some (datetime spring)) })
    ≡ none
unfolding days_until_birthday birthday_in first_of birthdate_of
no_days_left = refl

days_until_birthday-IsNext_example :
    (n : ℕ) × (days_until_birthday spring leapling ≡ some (some n))
    × IsNext born_on_leap_day spring n
days_until_birthday-IsNext_example =
    days_until_birthday-IsNext born_on_leap_day spring leapling refl
      (record { year = omega arith; day = omega arith; within_month = omega arith })
      (record { year = omega arith; day = omega arith; within_month = omega arith })
