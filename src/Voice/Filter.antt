-- ===== src/Voice/Filter.antt =====
-- The kid-mode filter of custom-providers/textUtils.py.
use dotty_stackchan.Prelude.{
  Char, String, Bool, true, false, not, ◌&&◌, ◌||◌, Option, none, some, List, [], ◌∷◌,
  if◌then◌else◌, keep, any, is_blank, concat,
}

-- What `re` decides about characters: `\w`, and whether a character of the text matches one of a
-- pattern under IGNORECASE.
pub record Matching : Type 0 where
  pub is_word : Char → Bool
  pub same : Char → Char → Bool

-- A term of a pattern; a stem goes on with `\w*`.
pub data Term : Type 0 where
  word : String → Term
  stem : String → Term

pub data Tier : Type 0 where
  alert log redirect : Tier

abbrev pub alert_terms : List Term
alert_terms =
    word "cocaine" ∷ word "heroin" ∷ word "methamphetamine" ∷ word "fentanyl" ∷ word "ecstasy" ∷ []

abbrev pub log_terms : List Term
log_terms =
    word "penis"
    ∷ word "vagina"
    ∷ word "orgasm"
    ∷ stem "porn"
    ∷ word "hentai"
    ∷ stem "decapitat"
    ∷ stem "dismember"
    ∷ stem "mutilat"
    ∷ []

abbrev pub redirect_terms : List Term
redirect_terms =
    stem "fuck"
    ∷ stem "shit"
    ∷ stem "bitch"
    ∷ word "bastard"
    ∷ word "cunt"
    ∷ word "nigger"
    ∷ word "nigga"
    ∷ word "faggot"
    ∷ word "retarded"
    ∷ word "retard"
    ∷ []

-- The text after a term that stands at its start.
unfoldable pub after_term : Matching → String → String → Option String
after_term r String.[] s = some s
after_term r (String.◌∷◌ a term) String.[] = none
after_term r (String.◌∷◌ a term) (String.◌∷◌ c s) =
    let rest = after_term r term s in if r.same a c then rest else none

-- `\b` before a text, after a character that is `\w`; and before a word, at its start.
abbrev pub ends_word : Matching → String → Bool
ends_word r String.[] = true
ends_word r (String.◌∷◌ c s) = not (r.is_word c)

abbrev pub is_whole : Matching → Option String → Bool
is_whole r none = false
is_whole r (some rest) = ends_word r rest

abbrev pub is_start : Option String → Bool
is_start none = false
is_start (some rest) = true

unfoldable pub matches_here : Matching → Term → String → Bool
matches_here r (word term) s = is_whole r (after_term r term s)
matches_here r (stem term) s = is_start (after_term r term s)

-- `pattern.search`: whether a term stands at the start of a word. `inside` says that the character
-- before is `\w`.
unfoldable pub finds : Matching → List Term → Bool → String → Bool
finds r terms inside String.[] = not inside && any (λ t. matches_here r t String.[]) terms
finds r terms inside (String.◌∷◌ c s) =
    not inside && any (λ t. matches_here r t (String.◌∷◌ c s)) terms
    || finds r terms (r.is_word c) s

-- `content_filter_match`: the tier, the most severe first.
unfoldable pub content_filter_match : Matching → String → Option Tier
content_filter_match r text =
    if finds r alert_terms false text
    then some alert
    else if finds r log_terms false text
    then some log
    else if finds r redirect_terms false text
    then some redirect
    else none

abbrev pub content_filter_replacement : String
content_filter_replacement =
    "😐 Let's talk about something fun instead! What's your favorite animal?"

abbrev replace_turn : Option Tier → List String → List String × List Tier
replace_turn none buffered = (buffered, [])
replace_turn (some tier) buffered = (content_filter_replacement ∷ [], tier ∷ [])

-- `filter_tts_stream`: what is said, and the calls of `on_hit`.
unfoldable pub filter_tts_stream : Matching → Bool → List String → List String × List Tier
filter_tts_stream r kid_mode chunks =
    let buffered = keep (λ c. not (is_blank c)) chunks in
    if not kid_mode
    then (chunks, [])
    else replace_turn (content_filter_match r (concat buffered)) buffered
