-- ===== src/Voice/Reply.antt =====
-- What `LLMProvider._response_serialized` of custom-providers/pi_voice/pi_voice.py says for a turn of
-- Pi.
use dotty_stackchan.Prelude.{
  Char, String, Bool, ◌&&◌, ◌||◌, Option, none, some, List, [], ◌∷◌, ◌==◌, if◌then◌else◌, any,
  is_blank, strip, to_lower, append, concat, join, words, contains,
}
use dotty_stackchan.Voice.Faces.{fallback_emoji}
use dotty_stackchan.Voice.Filter.{Matching}
use dotty_stackchan.Voice.Spoken.{spoken}
use dotty_stackchan.Voice.Frames.{ToolEvent, Turned, Outcome, finished}

unfoldable pub ends_with : String → String → Bool
ends_with suffix String.[] = is_blank suffix
ends_with suffix (String.◌∷◌ c s) = String.◌∷◌ c s == suffix || ends_with suffix s

-- `str(name or "").lower()`
abbrev lower_name : Option String → String
lower_name none = ""
lower_name (some s) = to_lower s

abbrev switch_word : String → Option String
switch_word name =
    if ends_with "hassturnon" name
    then some "on"
    else if ends_with "hassturnoff" name
    then some "off"
    else none

abbrev confirm : String → String → String
confirm action friendly = concat (
    "Turn " ∷ action ∷ " " ∷ friendly ∷ "? Say \"Confirm " ∷ action ∷ " " ∷ friendly
    ∷ "\" within 15 seconds." ∷ [])

abbrev confirm_named : Option String → Option String → Option String
confirm_named none friendly = none
confirm_named (some action) none = none
confirm_named (some action) (some friendly) =
    if is_blank (strip friendly)
    then none
    else some (confirm action (join " " (words (strip friendly))))

-- `_ha_confirmation_prompt`
unfoldable pub ha_confirmation_prompt : ToolEvent → Option String
unfolding ends_with contains to_lower concat join words strip
ha_confirmation_prompt event =
    if contains "DOTTY_CONFIRMATION_REQUIRED:" event.result_text
    then confirm_named (switch_word (lower_name event.name)) event.friendly
    else none

unfoldable pub first_confirmation : List ToolEvent → Option String
first_confirmation [] = none
first_confirmation (event ∷ events) = elim (ha_confirmation_prompt event) [
  | none ↦ first_confirmation events
  | some prompt ↦ some prompt
]

unfoldable pub is_cancelled : List ToolEvent → Bool
unfolding contains
is_cancelled events =
    any (λ event. contains "DOTTY_CONFIRMATION_" event.result_text && event.is_error) events

abbrev pub offline : String
offline = append fallback_emoji " (brain offline — try again in a moment)"

abbrev selected : Turned → List String
selected t = if is_cancelled t.tools then "😐 Light action cancelled." ∷ [] else t.texts

unfoldable pub say_reply :
    (Char → Bool) → Matching → Bool → Turned → Outcome → Option String → List String
say_reply is_symbol r kid_mode t finished none = spoken is_symbol r kid_mode (selected t)
say_reply is_symbol r kid_mode t finished (some prompt) = prompt ∷ []
say_reply is_symbol r kid_mode t _ _ = offline ∷ []

-- A turn that reached Pi.
unfoldable pub reply : (Char → Bool) → Matching → Bool → Turned → List String
reply is_symbol r kid_mode t =
    say_reply is_symbol r kid_mode t t.outcome (first_confirmation t.tools)
