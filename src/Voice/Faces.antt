-- ===== src/Voice/Faces.antt =====
-- The leading emoji of a spoken reply: `_enforce_leading_emoji` of
-- custom-providers/pi_voice/pi_voice.py, the emoji lists of custom-providers/textUtils.py, and
-- `ensure_emoji_prefix` and `strip_extra_emojis` of bridge/text.py.
use dotty_stackchan.Prelude.{
  ℕ, ◌-◌, Char, code, String, Bool, false, not, ◌&&◌, ◌||◌, List, [], ◌∷◌, ◌++◌, leb, nat_eq,
  if◌then◌else◌, keep, any, is_blank, lstrip, is_space, append,
}

-- ALLOWED_EMOJIS, each of one character: the 21 faces and the 4 legacy aliases.
abbrev pub allowed_emojis : List ℕ
allowed_emojis =
    0x1f636 ∷ 0x1f642 ∷ 0x1f606 ∷ 0x1f602 ∷ 0x1f614 ∷ 0x1f620 ∷ 0x1f62d ∷ 0x1f60d ∷ 0x1f633
    ∷ 0x1f632 ∷ 0x1f631 ∷ 0x1f914 ∷ 0x1f609 ∷ 0x1f60e ∷ 0x1f60c ∷ 0x1f924 ∷ 0x1f618 ∷ 0x1f60f
    ∷ 0x1f634 ∷ 0x1f61c ∷ 0x1f644 ∷ 0x1f60a ∷ 0x1f622 ∷ 0x1f62e ∷ 0x1f610 ∷ []

unfoldable pub is_allowed : Char → Bool
is_allowed c = any (λ n. nat_eq n (code c)) allowed_emojis

-- `any(s.startswith(emoji) for emoji in ALLOWED_EMOJIS)`
abbrev pub has_face : String → Bool
has_face String.[] = false
has_face (String.◌∷◌ c s) = is_allowed c

abbrev pub fallback_emoji : String
fallback_emoji = "😐"

-- A character that goes with the symbol before it: a presentation, a joiner or a skin tone, or one
-- more of the category `So`, which `is_symbol` stands for.
abbrev continues : (Char → Bool) → Char → Bool
continues is_symbol c =
    nat_eq (code c) 0xfe0f
    || nat_eq (code c) 0x200d
    || leb 0x1f3fb (code c) && leb (code c) 0x1f3ff
    || is_symbol c

unfoldable pub drop_symbols : (Char → Bool) → String → String
drop_symbols is_symbol String.[] = String.[]
drop_symbols is_symbol (String.◌∷◌ c s) =
    if continues is_symbol c then drop_symbols is_symbol s else String.◌∷◌ c s

-- What follows the fallback, where the reply starts with no allowed emoji.
unfoldable pub without_symbol : (Char → Bool) → String → String
unfolding drop_symbols lstrip
without_symbol is_symbol String.[] = String.[]
without_symbol is_symbol (String.◌∷◌ c s) =
    if is_symbol c then lstrip (drop_symbols is_symbol s) else String.◌∷◌ c s

abbrev unless_blank : String → List String → List String
unless_blank s rest = if is_blank s then rest else s ∷ rest

-- What is said for the first text that is more than white space.
unfoldable pub opening : (Char → Bool) → String → List String
opening is_symbol so_far =
    if has_face so_far
    then so_far ∷ []
    else append fallback_emoji " " ∷ unless_blank (without_symbol is_symbol so_far) []

-- `_enforce_leading_emoji`, with the white space that came before.
unfoldable pub enforce_from : (Char → Bool) → String → List String → List String
enforce_from is_symbol leading [] = append fallback_emoji " (no response)" ∷ []
enforce_from is_symbol leading (chunk ∷ chunks) =
    let so_far = lstrip (append leading chunk) in
    let later = enforce_from is_symbol (append leading chunk) chunks in
    if is_blank chunk || is_blank so_far
    then later
    else opening is_symbol so_far ++ keep (λ c. not (is_blank c)) chunks

abbrev pub enforce_leading_emoji : (Char → Bool) → List String → List String
enforce_leading_emoji is_symbol chunks = enforce_from is_symbol "" chunks

-- `ensure_emoji_prefix`
unfoldable pub ensure_emoji_prefix : String → String
ensure_emoji_prefix text =
    if is_blank text
    then append fallback_emoji " (no response)"
    else if has_face (lstrip text)
    then text
    else append fallback_emoji (append " " text)

-- The class of `_EXTRA_EMOJI_RE`.
unfoldable pub is_extra_emoji : Char → Bool
is_extra_emoji c =
    leb 0x1f300 (code c) && leb (code c) 0x1faff
    || leb 0x2600 (code c) && leb (code c) 0x27bf
    || leb 0x1f000 (code c) && leb (code c) 0x1f0ff
    || leb 0x1f100 (code c) && leb (code c) 0x1f1ff

unfoldable pub without_emojis : String → String
without_emojis String.[] = String.[]
without_emojis (String.◌∷◌ c s) =
    if is_extra_emoji c then without_emojis s else String.◌∷◌ c (without_emojis s)

-- The text from the first character that is no white space on: a leading face stays.
unfoldable pub after_face : String → String
after_face String.[] = String.[]
after_face (String.◌∷◌ c s) =
    if is_allowed c then String.◌∷◌ c (without_emojis s) else without_emojis (String.◌∷◌ c s)

-- `strip_extra_emojis`: the white space before the face stays too.
unfoldable pub strip_extra_emojis : String → String
strip_extra_emojis String.[] = String.[]
strip_extra_emojis (String.◌∷◌ c s) =
    if is_space c then String.◌∷◌ c (strip_extra_emojis s) else after_face (String.◌∷◌ c s)

-- `truncate_sentences`, with the sentences that may still come.
unfoldable pub truncate_from : ℕ → String → String
truncate_from left String.[] = String.[]
truncate_from left (String.◌∷◌ c s) =
    let is_end = nat_eq (code c) 46 || nat_eq (code c) 33 || nat_eq (code c) 63 in
    String.◌∷◌ c (
      if is_end
      then if leb left 1 then String.[] else truncate_from (left - 1) s
      else truncate_from left s)

abbrev pub truncate_sentences : ℕ → String → String
truncate_sentences max_sentences text = truncate_from max_sentences text
