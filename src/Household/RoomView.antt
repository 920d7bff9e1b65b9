-- ===== src/Household/RoomView.antt =====
-- Who is seen: the roster of dotty-behaviour/household/registry.py and the question and the answer of
-- dotty-behaviour/vision/room_view.py.
use dotty_stackchan.Prelude.{
  ℕ, ◌-◌, code, String, Bool, true, false, not, ◌||◌, Option, none, some, List, [], ◌∷◌, map, ◌==◌,
  ltb, nat_eq, if◌then◌else◌, keep, any, is_blank, strip, to_lower, rstrip, append, concat, join,
  contains, take_chars,
}
use dotty_stackchan.Prelude.Texts.{text_length}
use dotty_stackchan.Household.Person.{Person}
use dotty_stackchan.Household.Registry.{Registry, members}
use dotty_stackchan.Household.Resolver.{resolve_vlm_name}

-- Python's order of texts, by code points.
unfoldable pub text_leb : String → String → Bool
text_leb String.[] t = true
text_leb (String.◌∷◌ a s) String.[] = false
text_leb (String.◌∷◌ a s) (String.◌∷◌ b t) =
    if nat_eq (code a) (code b) then text_leb s t else ltb (code a) (code b)

module _ {ℓ} {A : Type ℓ} (key : A → String) where
  unfoldable pub place_by : A → List A → List A
  unfolding text_leb
  place_by x [] = x ∷ []
  place_by x (y ∷ ys) = if text_leb (key x) (key y) then x ∷ y ∷ ys else y ∷ place_by x ys

  -- `sorted(xs, key=key)`
  unfoldable pub sorted_by : List A → List A
  unfolding place_by
  sorted_by [] = []
  sorted_by (x ∷ xs) = place_by x (sorted_by xs)

-- `(p.appearance or "").strip()`
unfoldable pub appearance_of : Person → String
unfolding strip
appearance_of p = elim p.appearance [ none ↦ "" | some s ↦ strip s ]

abbrev pub has_appearance : Person → Bool
has_appearance p = not (is_blank (appearance_of p))

abbrev cut_line : ℕ → String → String
cut_line n s = if ltb n (text_length s) then append (rstrip (take_chars (n - 3) s)) "..." else s

unfoldable pub roster_line : ℕ → Person → String
unfolding append take_chars rstrip appearance_of
roster_line max_line_chars p =
    append "  " (append p.display_name (append ": " (cut_line max_line_chars (appearance_of p))))

-- `render_roster_for_vlm`
unfoldable pub render_roster_for_vlm : ℕ → Registry → String
unfolding members sorted_by roster_line join appearance_of
render_roster_for_vlm max_line_chars r = join "\n" (
    map (roster_line max_line_chars)
      (keep has_appearance (sorted_by (λ p. to_lower p.display_name) (members r.people))))

-- `roster_ids_with_appearance`
unfoldable pub roster_ids_with_appearance : Registry → List String
unfolding members appearance_of
roster_ids_with_appearance r = map (λ p. p.id) (keep has_appearance (members r.people))

unfoldable pub room_view_prompt : String → String → String
unfolding concat
room_view_prompt roster name_choices = concat (
    "Look at this photo and do THREE things in one reply.\n\n"
    ∷ "1. Describe the person in ONE short sentence — approximate age "
    ∷ "range, hair, clothing, distinguishing features.\n"
    ∷ "2. If the person clearly matches one of these family members, "
    ∷ "give that exact name. Otherwise reply with the name 'unknown'.\n"
    ∷ "3. Read the person's apparent mood — pick exactly one of: "
    ∷ "engaged, tired, excited, distressed, neutral.\n\nFamily:\n" ∷ roster
    ∷ "\n\nReply on a SINGLE line in this exact format:\nDESC: <one sentence> | NAME: <"
    ∷ name_choices ∷ "|unknown> | MOOD: <engaged|tired|excited|distressed|neutral>\n\n"
    ∷ "If you cannot see a person at all, reply with exactly: no one in view\n"
    ∷ "Do not invent names. Do not add commentary." ∷ [])

-- `build_room_view_question`
unfoldable pub build_room_view_question : Option Registry → Option String
unfolding members sorted_by render_roster_for_vlm room_view_prompt join strip appearance_of
build_room_view_question none = none
build_room_view_question (some r) =
    let roster = render_roster_for_vlm 80 r in
    if is_blank (strip roster)
    then none
    else some (
        room_view_prompt roster (
          join "|" (
            sorted_by (λ name. name)
              (map (λ p. p.display_name) (keep has_appearance (members r.people))))))

-- What the expression of the reply gives: its description, its name and its mood.
abbrev pub Groups : Type 0
Groups = String × String × Option String

abbrev pub room_view_moods : List String
room_view_moods = "engaged" ∷ "tired" ∷ "excited" ∷ "distressed" ∷ "neutral" ∷ []

abbrev valid_mood : Option String → Option String
valid_mood none = none
valid_mood (some s) =
    let mood = to_lower (strip s) in
    if any (λ m. m == mood) room_view_moods then some mood else none

-- The description, the id of the person and the mood.
pub record View : Type 0 where
  pub description : Option String
  pub person_id : Option String
  pub mood : Option String

abbrev nothing_seen : View
nothing_seen = record { description = none; person_id = none; mood = none }

unfoldable pub view_of : Registry → Groups → View
unfolding resolve_vlm_name strip to_lower
view_of r (desc, name, mood) = record {
  description = if is_blank (strip desc) then none else some (strip desc);
  person_id =
      if to_lower (strip name) == "unknown"
      then none
      else elim (resolve_vlm_name r (strip name)) [ none ↦ none | some p ↦ some p.id ];
  mood = valid_mood mood;
}

-- `parse_room_view_response`, for what the expression matches.
unfoldable pub parse_room_view_response : (String → Option Groups) → Registry → String → View
unfolding view_of contains strip to_lower
parse_room_view_response match r raw =
    let cleaned = strip raw in
    if is_blank raw || is_blank cleaned || contains "no one in view" (to_lower cleaned)
    then nothing_seen
    else elim (match cleaned) [
      | none ↦ record { description = some cleaned; person_id = none; mood = none }
      | some groups ↦ view_of r groups
    ]
