-- ===== src/Greeter/Wording.antt =====
-- What the greeter says (dotty-behaviour/greeter/greeter.py): the window of the day, the clean-up of
-- the model's answer, the fallback, and the kid-mode strip of a leading face.
use dotty_stackchan.Prelude.{
  tail_chars, drop_last, last_char, first_char, text_length, words, join, concat, after_prefix, ℕ,
  Char, code, String, Bool, false, ◌&&◌, ◌||◌, Option, none, some, List, [], ◌∷◌, ltb, leb, nat_eq,
  if◌then◌else◌, strip, lstrip,
}

-- `_current_window`
unfoldable pub current_window : ℕ → String
current_window hour =
    if leb 5 hour && ltb hour 12
    then "morning"
    else if leb 12 hour && ltb hour 17
    then "afternoon"
    else if leb 17 hour && ltb hour 21
    then "evening"
    else "night"

abbrev is_quote : Option Char → Bool
is_quote none = false
is_quote (some c) = nat_eq (code c) b'"' || nat_eq (code c) 39

-- `_post_process`
unfoldable pub post_process : String → String
post_process text =
    let cleaned = join " " (words (strip text)) in
    if leb 2 (text_length cleaned) && is_quote (first_char cleaned) && is_quote (last_char cleaned)
    then strip (drop_last (tail_chars cleaned))
    else cleaned

-- `_template_fallback`, from the display name of the identity if the household knows it.
unfoldable pub template_fallback : Option String → String → String → String
template_fallback display_name identity window =
    let addressee : String = elim display_name [ none ↦ identity | some name ↦ name ] in
    concat ("Good " ∷ window ∷ ", " ∷ addressee ∷ "!" ∷ [])

abbrev pub stripped_faces : List String
stripped_faces = "😊" ∷ "😆" ∷ "😢" ∷ "😮" ∷ "🤔" ∷ "😠" ∷ "😐" ∷ "😍" ∷ "😴" ∷ []

-- The loop of `_sandwich`: the first face that the text starts with goes.
unfoldable pub strip_face : List String → String → String
strip_face [] text = text
strip_face (ch ∷ faces) text =
    let rest = strip_face faces text in
    elim (after_prefix ch text) [ none ↦ rest | some tail ↦ lstrip tail ]

-- `_sandwich`; a provider that raises counts as kid mode.
unfoldable pub sandwich : Option Bool → String → String
unfolding strip_face
sandwich (some false) text = text
sandwich _ text = strip_face stripped_faces text
