-- ===== src/Calendar/Buckets.antt =====
-- The buckets and the summaries of dotty-behaviour/calendar_/cache.py.
use dotty_stackchan.Prelude.{
  String, ◌≡◌, refl, sym, ap, ◌∙◌, ◌⊎◌, inl, inr, true, some, List, [], ◌∷◌, ◌++◌, map, arith, ◌==◌,
  eq_iff, Bool-cases, keep,
}
use mathlib.Core.List.{append-nil, append_assoc}
use dotty_stackchan.Dict.{Dict, lookup, get_or, get_or-insert}
use dotty_stackchan.Calendar.Cache.{
  line_of, concerns, fold_person_tag, CalendarEvent, Request, put_event, bucket_onto,
  bucket_by_person, concerns, line_of,
}

bucket_onto-lookup :
    (name : String) (evs : List CalendarEvent) (out : Dict (List CalendarEvent))
    → get_or name [] (bucket_onto out evs)
      ≡ get_or name [] out ++ keep (λ ev. ev.person == name) evs
unfolding bucket_onto put_event
bucket_onto-lookup name [] out = sym (append-nil (get_or name [] out))
bucket_onto-lookup name (ev ∷ evs) out = elim (Bool-cases (ev.person == name)) [
  | inl same ↦
      bucket_onto-lookup name evs (put_event ev out)
      ∙ rw (get_or-insert, same)
          (ap (λ n. (get_or n [] out ++ ev ∷ []) ++ keep (λ e. e.person == name) evs)
              (ground (arith, eq_iff ev.person name))
            ∙ append_assoc (get_or name [] out) (ev ∷ []) (keep (λ e. e.person == name) evs))
  | inr other ↦ bucket_onto-lookup name evs (put_event ev out) ∙ rw (get_or-insert, other) refl
]

-- The bucket of a name holds exactly the events of that person, in their order.
bucket_by_person-get_or :
    (name : String) (events : List CalendarEvent)
    → get_or name [] (bucket_by_person events) ≡ keep (λ ev. ev.person == name) events
unfolding get_or lookup
bucket_by_person-get_or name events = bucket_onto-lookup name events []

abbrev pub Has : {A : Type 0} → A → List A → Type 0
Has x [] = ⊥
Has x (y ∷ ys) = (x ≡ y) ⊎ Has x ys

-- An event that a request for a person asks for: one of somebody with a tag that reads the same but
-- for case and white space, or one of the household, if those are to be included.
abbrev pub IsWanted : Request → List String → CalendarEvent → Type 0
IsWanted r tags ev =
    Has (fold_person_tag ev.person) (map fold_person_tag tags)
    ⊎ ((r.include_household ≡ true) × (ev.person ≡ r.household_bucket))

-- The events of a line.
abbrev pub IsLineOf : Request → List String → List CalendarEvent → String → CalendarEvent → Type 0
IsLineOf r tags events line ev = Has ev events × IsWanted r tags ev × (line_of r ev ≡ some line)
