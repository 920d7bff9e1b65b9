-- ===== src/Household/SelfId.antt =====
-- Whom a phrase like "it's Hudson" identifies.
use dotty_stackchan.Prelude.{
  ℕ, ◌≤◌, Char, String, ◌≡◌, sym, ap, ◌⊎◌, inl, inr, Bool, true, false, Option, none, some, List,
  [], ◌∷◌, arith, leb, if◌then◌else◌, Option-cases, is_empty, is_blank, to_lower, leb→le,
}
use mathlib.Core.Path.{subst}
use dotty_stackchan.Dict.{lookup, has_key, has_key-lookup}
use dotty_stackchan.Prelude.{if_cases}
use dotty_stackchan.Prelude.Texts.{text_length}
use dotty_stackchan.Household.Value.{Runtime}
use dotty_stackchan.Household.Person.{Person}
use dotty_stackchan.Household.Registry.{
  put_people, people_block, or_fallback, empty_registry, File, missing, unreadable, not_mapping,
  document, Registry, place, longest_first, load, leads, first_led, match_self_id, drop_leading,
}
use dotty_stackchan.Household.Linked.{IsLinked, load-IsLinked, AreOwned}

-- The phrase of the first entry is at least as long as those of the second list.
abbrev AreShorter : ℕ → List (String × String) → Type 0
AreShorter n [] = Unit
AreShorter n ((phrase, id) ∷ pairs) = (text_length phrase ≤ n) × AreShorter n pairs

abbrev AreSorted : List (String × String) → Type 0
AreSorted [] = Unit
AreSorted ((phrase, id) ∷ pairs) = AreShorter (text_length phrase) pairs × AreSorted pairs

AreShorter-le :
    (m n : ℕ) (pairs : List (String × String)) → m ≤ n → AreShorter m pairs → AreShorter n pairs
AreShorter-le m n [] h k = tt
AreShorter-le m n ((phrase, id) ∷ pairs) h k = (omega (arith, k.0), AreShorter-le m n pairs h k.1)

AreShorter-place :
    (n : ℕ) (pair : String × String) (pairs : List (String × String))
    → text_length pair.0 ≤ n
    → AreShorter n pairs
    → AreShorter n (place pair pairs)
unfolding place
AreShorter-place n pair [] h k = (h, tt)
AreShorter-place n pair (other ∷ rest) h k = ground (arith, AreShorter-place n pair rest h k.1)

AreSorted-place :
    (pair : String × String) (pairs : List (String × String))
    → AreSorted pairs
    → AreSorted (place pair pairs)
unfolding place
AreSorted-place pair [] h = (tt, tt)
AreSorted-place pair (other ∷ rest) h =
    if_cases AreSorted (leb (text_length other.0) (text_length pair.0)) _ _
      (λ longer.
        let le = leb→le (text_length other.0) (text_length pair.0) longer in
        ((le, AreShorter-le (text_length other.0) (text_length pair.0) rest le h.0), h))
      (λ shorter. (
        AreShorter-place (text_length other.0) pair rest (ground arith) h.0,
        AreSorted-place pair rest h.1,
      ))

AreSorted-longest_first : (pairs : List (String × String)) → AreSorted (longest_first pairs)
unfolding longest_first
AreSorted-longest_first [] = tt
AreSorted-longest_first (pair ∷ pairs) =
    AreSorted-place pair (longest_first pairs) (AreSorted-longest_first pairs)

-- Every phrase that leads the text is at most `n` long.
abbrev AllLedBelow : (Char → Bool) → String → ℕ → List (String × String) → Type 0
AllLedBelow is_alnum s n [] = Unit
AllLedBelow is_alnum s n ((phrase, id) ∷ pairs) =
    (leads is_alnum phrase s ≡ true → text_length phrase ≤ n) × AllLedBelow is_alnum s n pairs

abbrev Among : String × String → List (String × String) → Type 0
Among pair [] = ⊥
Among pair (other ∷ pairs) = (pair ≡ other) ⊎ Among pair pairs

-- A phrase of the person in the list leads the text, and none that leads it is longer.
abbrev IsLongest : (Char → Bool) → String → List (String × String) → Person → Type 0
IsLongest is_alnum s pairs p =
    (phrase : String) × Among (phrase, p.id) pairs
    × (leads is_alnum phrase s ≡ true)
    × AllLedBelow is_alnum s (text_length phrase) pairs

abbrev NoneLeads : (Char → Bool) → String → List (String × String) → Type 0
NoneLeads is_alnum s [] = Unit
NoneLeads is_alnum s ((phrase, id) ∷ pairs) =
    (leads is_alnum phrase s ≡ false) × NoneLeads is_alnum s pairs

-- The person with the longest phrase that leads the text, or no one where none does.
abbrev pub IsAnswer : (Char → Bool) → String → List (String × String) → Option Person → Type 0
IsAnswer is_alnum s pairs none = NoneLeads is_alnum s pairs
IsAnswer is_alnum s pairs (some p) = IsLongest is_alnum s pairs p

AllLedBelow-shorter :
    (is_alnum : Char → Bool) (s : String) (n : ℕ) (pairs : List (String × String))
    → AreShorter n pairs
    → AllLedBelow is_alnum s n pairs
AllLedBelow-shorter is_alnum s n [] h = tt
AllLedBelow-shorter is_alnum s n ((phrase, id) ∷ pairs) h =
    (λ led. h.0, AllLedBelow-shorter is_alnum s n pairs h.1)

IsAnswer-later :
    (is_alnum : Char → Bool) (s phrase id : String) (pairs : List (String × String))
    (o : Option Person)
    → leads is_alnum phrase s ≡ false
    → IsAnswer is_alnum s pairs o
    → IsAnswer is_alnum s ((phrase, id) ∷ pairs) o
IsAnswer-later is_alnum s phrase id pairs none h k = (h, k)
IsAnswer-later is_alnum s phrase id pairs (some p) h (found, among, led, below) =
    (found, inr among, led, (λ leading. absurd (ground (arith, h, leading)), below))

-- The owner of a phrase, who is a member.
owner :
    (r : Registry) (id : String)
    → IsLinked r
    → has_key id r.people ≡ true
    → (p : Person) × (lookup id r.people ≡ some p) × (p.id ≡ id)
owner r id h k = elim (Option-cases (lookup id r.people)) [
  | inl nobody ↦ absurd (ground (arith, has_key-lookup id r.people, nobody))
  | inr (p, e) ↦ (p, e, (h.ids id p e).0)
]

IsAnswer-first :
    (is_alnum : Char → Bool) (s phrase id : String) (pairs : List (String × String)) (r : Registry)
    → IsLinked r
    → has_key id r.people ≡ true
    → leads is_alnum phrase s ≡ true
    → AreShorter (text_length phrase) pairs
    → IsAnswer is_alnum s ((phrase, id) ∷ pairs) (lookup id r.people)
IsAnswer-first is_alnum s phrase id pairs r h k led shorter =
    let (p, e, same) = owner r id h k in
    subst (IsAnswer is_alnum s ((phrase, id) ∷ pairs)) (sym e) (
      phrase,
      inl (ap (λ i. (phrase, i)) same),
      led,
      (λ leading. omega arith, AllLedBelow-shorter is_alnum s (text_length phrase) pairs shorter),
    )

IsAnswer-first_led :
    (is_alnum : Char → Bool) (s : String) (r : Registry) (pairs : List (String × String))
    → IsLinked r
    → AreOwned r.people pairs
    → AreSorted pairs
    → IsAnswer is_alnum s pairs (first_led is_alnum r.people s pairs)
unfolding first_led
IsAnswer-first_led is_alnum s r [] h owned sorted = tt
IsAnswer-first_led is_alnum s r ((phrase, id) ∷ pairs) h owned sorted =
    if_cases (IsAnswer is_alnum s ((phrase, id) ∷ pairs)) (leads is_alnum phrase s) _ _
      (λ led. IsAnswer-first is_alnum s phrase id pairs r h owned.0 led sorted.0)
      (λ other.
        IsAnswer-later is_alnum s phrase id pairs _ other
          (IsAnswer-first_led is_alnum s r pairs h owned.1 sorted.1))

AreSorted-load : (t : Runtime) (file : File) → AreSorted (load t file).self_id
unfolding load
AreSorted-load t missing = tt
AreSorted-load t (unreadable mtime) = tt
AreSorted-load t (not_mapping mtime) = tt
AreSorted-load t (document mtime d) =
    AreSorted-longest_first
      (put_people t (people_block d.people)
        (record (empty_registry mtime) { default_person = or_fallback d.default_person })).self_id

IsAnswer-nobody :
    (is_alnum : Char → Bool) (s : String) (pairs : List (String × String)) (o : Option Person)
    → IsAnswer is_alnum s pairs o
    → IsAnswer is_alnum s pairs (if is_empty pairs then none else o)
IsAnswer-nobody is_alnum s [] o h = tt
IsAnswer-nobody is_alnum s (pair ∷ pairs) o h = h

-- Whatever the file holds, `match_self_id` answers a text that is not empty with the member one of
-- whose phrases, as whole words, starts the text (without its leading punctuation and in lower case)
-- and is longest among all phrases of the household that do, and with no one only where none does.
pub match_self_id-longest :
    (t : Runtime) (file : File) (s : String)
    → is_blank s ≡ false
    → IsAnswer t.is_alnum
        (to_lower (drop_leading t.is_alnum s))
        (load t file).self_id
        (match_self_id t (load t file) s)
unfolding match_self_id
match_self_id-longest t file s said = rw said (
    IsAnswer-nobody t.is_alnum (to_lower (drop_leading t.is_alnum s)) (load t file).self_id _ (
      IsAnswer-first_led t.is_alnum (to_lower (drop_leading t.is_alnum s)) (load t file)
        (load t file).self_id (load-IsLinked t file) (load-IsLinked t file).owned
        (AreSorted-load t file)))
