-- ===== src/Hearing/Phrases.antt =====
-- What a recognised text asks for: the detectors of receiveAudioHandle.py.
use dotty_stackchan.Prelude.{
  ℕ, suc, Char, code, String, Bool, ◌&&◌, ◌||◌, Option, none, some, List, [], ◌∷◌, ◌==◌, ltb, leb,
  if◌then◌else◌, any, is_blank, strip, to_lower, append, contains,
}
use dotty_stackchan.Prelude.Texts.{text_length}

-- The classes of characters of the expressions: `\w`.
pub record Classes : Type 0 where
  pub is_word : Char → Bool

-- The letters of `_LETTERS_RE`.
abbrev is_letter_code : ℕ → Bool
is_letter_code c =
    leb 97 c && leb c 122
    || leb 65 c && leb c 90
    || leb 0x4e00 c && leb c 0x9fff
    || leb 0x3040 c && leb c 0x309f
    || leb 0x30a0 c && leb c 0x30ff

unfoldable pub letters : String → ℕ
letters String.[] = 0
letters (String.◌∷◌ c s) =
    let rest = letters s in if is_letter_code (code c) then suc rest else rest

-- `_is_noise`, for `MIN_UTTERANCE_CHARS`
unfoldable pub is_noise : ℕ → String → Bool
unfolding strip letters
is_noise min_chars s =
    let stripped = strip s in
    is_blank stripped || ltb (text_length stripped) min_chars || ltb (letters stripped) min_chars

-- `any(phrase in lower for phrase in phrases)`
unfoldable pub mentions : List String → String → Bool
unfolding contains
mentions phrases s = any (λ phrase. contains phrase s) phrases

abbrev pub vision_phrases : List String
vision_phrases =
    "look at" ∷ "what do you see" ∷ "what is this" ∷ "what's this" ∷ "take a photo"
    ∷ "take a picture" ∷ "can you see" ∷ "what's in front" ∷ "what am i holding" ∷ "what's that"
    ∷ "what is that" ∷ "describe what" ∷ "what color is" ∷ "what colour is" ∷ "how many"
    ∷ "do you see" ∷ []

abbrev pub wake_phrases : List String
wake_phrases = "wake up" ∷ "come back" ∷ "are you there" ∷ []

abbrev pub non_conversational_states : List String
non_conversational_states = "sleep" ∷ "security" ∷ "story_time" ∷ []

abbrev pub help_phrases : List String
help_phrases =
    "what can you do" ∷ "what do you do" ∷ "how do i use you" ∷ "how do you work" ∷ "help me out"
    ∷ "what are your features" ∷ []

-- A phrase, the state that it asks for, and the answer that is suggested.
abbrev pub state_trigger_phrases : List (String × String × String)
state_trigger_phrases =
    ("goodnight dotty", "sleep", "Goodnight! 😴")
    ∷ ("good night dotty", "sleep", "Goodnight! 😴")
    ∷ ("go to sleep", "sleep", "Going to sleep 😴")
    ∷ ("keep watch", "security", "Watching the room 👾")
    ∷ ("security mode", "security", "Watching the room 👾")
    ∷ ("watch the room", "security", "Watching the room 👾")
    ∷ ("tell me a story", "story_time", "Story time! 📖")
    ∷ ("story time", "story_time", "Story time! 📖")
    ∷ []

unfoldable pub first_trigger : String → List (String × String × String) → Option (String × String)
unfolding contains
first_trigger s [] = none
first_trigger s ((phrase, state, ack) ∷ triggers) =
    if contains phrase s then some (state, ack) else first_trigger s triggers

-- `_detect_state_phrase`
unfoldable pub detect_state_phrase : String → Option (String × String)
unfolding first_trigger to_lower strip
detect_state_phrase s = first_trigger (strip (to_lower s)) state_trigger_phrases

-- `_is_wake_phrase`
unfoldable pub is_wake_phrase : String → Bool
unfolding mentions to_lower strip
is_wake_phrase s = mentions wake_phrases (strip (to_lower s))

-- `_is_help_request`
unfoldable pub is_help_request : String → Bool
unfolding mentions to_lower strip
is_help_request s = mentions help_phrases (strip (to_lower s))

-- `_is_vision_request`
unfoldable pub is_vision_request : String → Bool
unfolding mentions to_lower strip
is_vision_request s = mentions vision_phrases (strip (to_lower s))

abbrev pub dance_phrases : List String
dance_phrases =
    "dance" ∷ "do a dance" ∷ "let's dance" ∷ "can you dance" ∷ "dance for me" ∷ "dance time"
    ∷ "dance mode" ∷ "do the macarena" ∷ "macarena" ∷ "sing a song" ∷ "sing the macarena"
    ∷ "sing macarena" ∷ "can you sing" ∷ "sing for me" ∷ "sing something" ∷ "let's sing"
    ∷ "play tetris" ∷ "tetris music" ∷ "play the tetris" ∷ "mountain king"
    ∷ "hall of the mountain king" ∷ "star wars" ∷ "play star wars" ∷ "star wars music" ∷ "pirates"
    ∷ "pirate music" ∷ "pirates of the caribbean" ∷ "play mario" ∷ "mario music" ∷ "super mario"
    ∷ "play music" ∷ "play a song" ∷ "music time" ∷ []

-- Whether a run of word characters is the word; the first text is the run so far.
unfoldable pub has_run : Classes → String → String → String → Bool
unfolding append
has_run k word run String.[] = run == word
has_run k word run (String.◌∷◌ c s) =
    let longer = has_run k word (append run (String.◌∷◌ c String.[])) s in
    let next = has_run k word "" s in if k.is_word c then longer else run == word || next

-- `_is_dance_request`
unfoldable pub is_dance_request : Classes → String → Bool
unfolding mentions has_run to_lower strip
is_dance_request k s =
    let lower = strip (to_lower s) in mentions dance_phrases lower || has_run k "sing" "" lower

-- The names of `DANCE_REGISTRY` of dances.py.
abbrev pub dance_registry : List String
dance_registry = "macarena" ∷ "tetris" ∷ "mountain_king" ∷ "star_wars" ∷ "pirates" ∷ "mario" ∷ []

abbrev pub default_dance : String
default_dance = "macarena"

abbrev pub dance_aliases : List (String × String)
dance_aliases =
    ("hall of the mountain king", "mountain_king")
    ∷ ("mountain king", "mountain_king")
    ∷ ("pirates of the caribbean", "pirates")
    ∷ ("super mario", "mario")
    ∷ ("star wars", "star_wars")
    ∷ ("macarena", "macarena")
    ∷ ("tetris", "tetris")
    ∷ ("pirate", "pirates")
    ∷ ("mario", "mario")
    ∷ []

abbrev first_name : List String → String → Option String
first_name [] s = none
first_name (name ∷ names) s = if contains name s then some name else first_name names s

abbrev first_alias : List (String × String) → String → Option String
first_alias [] s = none
first_alias ((alias, name) ∷ aliases) s =
    if contains alias s then some name else first_alias aliases s

-- `_detect_dance_name`, where `random.choice` is `choose`.
unfoldable pub detect_dance_name : (List String → String) → String → String
unfolding contains mentions to_lower
detect_dance_name choose s =
    let lower = to_lower s in
    elim (first_name dance_registry lower) [
      | some name ↦ name
      | none ↦ elim (first_alias dance_aliases lower) [
        | some name ↦ name
        | none ↦
            if mentions ("play music" ∷ "play a song" ∷ "music time" ∷ "play song" ∷ []) lower
            then choose dance_registry
            else default_dance
      ]
    ]
