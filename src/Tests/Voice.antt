-- ===== src/Tests/Voice.antt =====
-- Runs of the voice path, and its theorems at concrete inputs.
use dotty_stackchan.Prelude.{
  ◌+◌, ◌≤◌, Char, code, String, ◌≡◌, refl, inl, inr, Bool, true, false, ◌&&◌, ◌||◌, none, some,
  List, [], ◌∷◌, leb, nat_eq, lstrip, is_space, append, concat,
}
use dotty_stackchan.Voice.Faces.{
  is_allowed, has_face, enforce_from, opening, without_symbol, drop_symbols, strip_extra_emojis,
  after_face, without_emojis, is_extra_emoji, truncate_from,
}
use dotty_stackchan.Voice.Filter.{
  Matching, alert, content_filter_match, content_filter_replacement, filter_tts_stream, finds,
  matches_here, after_term,
}
use dotty_stackchan.Voice.Spoken.{spoken, verdict, has_face-spoken, filter_tts_stream-verdict}
use dotty_stackchan.Voice.Blocked.{severity, content_filter_match-HasTerm}
use dotty_stackchan.Voice.Session.{
  no_session, converse, VoiceStep, speaks, disconnects, take_voice_turn, after_reset, reset_reason,
  session_reason, cancel_pending_confirmation,
}
use dotty_stackchan.Voice.Isolation.{IsIsolated, converse-IsIsolated}
use dotty_stackchan.Voice.Frames.{
  prompt_response, text_delta, agent_end, unhandled, Arrival, arrived, quiet, Turned,
  iter_turn_text, finished,
}
use dotty_stackchan.Voice.Reply.{first_confirmation, reply}
use dotty_stackchan.Voice.Turns.{result, expected, iter_turn_text-expected, has_face-reply}

-- ASCII letters as `\w`, folded by case.
abbrev matching : Matching
matching = record {
  is_word = λ c. leb 65 (code c) && leb (code c) 90 || leb 97 (code c) && leb (code c) 122;
  same = λ a c. nat_eq (code a) (code c) || nat_eq (code a) (code c + 32);
}

abbrev is_symbol : Char → Bool
is_symbol c =
    leb 0x2600 (code c) && leb (code c) 0x27bf || leb 0x1f300 (code c) && leb (code c) 0x1faff

abbrev chunks : List String
chunks = "  " ∷ "" ∷ " 🚀" ∷ " up and " ∷ "away" ∷ []

rocket : spoken is_symbol matching true chunks ≡ "😐 " ∷ " up and " ∷ "away" ∷ []
unfolding enforce_from opening without_symbol drop_symbols lstrip append concat is_allowed is_space
    filter_tts_stream content_filter_match finds matches_here after_term
rocket = refl

has_face-spoken_example : has_face (concat (spoken is_symbol matching true chunks)) ≡ true
has_face-spoken_example = has_face-spoken is_symbol matching true chunks

-- A word that two chunks share.
abbrev split_word : List String
split_word = "😐 about her" ∷ "Oin." ∷ []

split_word_found : verdict matching (concat split_word) ≡ (content_filter_replacement, alert ∷ [])
unfolding content_filter_match finds matches_here after_term append concat
split_word_found = refl

filter_tts_stream-verdict_example :
    (
      concat (filter_tts_stream matching true split_word).0,
      (filter_tts_stream matching true split_word).1,
    )
    ≡ verdict matching (concat split_word)
filter_tts_stream-verdict_example = filter_tts_stream-verdict matching split_word

clean_word : content_filter_match matching "a heroine" ≡ none
unfolding content_filter_match finds matches_here after_term
clean_word = refl

content_filter_match-HasTerm_example :
    severity (some alert)
    ≤ severity (content_filter_match matching (append "about " (append "HerOin" ".")))
content_filter_match-HasTerm_example =
    content_filter_match-HasTerm matching alert "about " "HerOin" "." refl
      (inr (inl ((refl, (refl, (refl, (refl, (refl, (refl, tt)))))), refl)))

-- The second session starts afresh; its second turn comes after the timeout.
abbrev visits : List VoiceStep
visits =
    speaks true (some "a") 10
    ∷ speaks true (some "a") 20
    ∷ speaks false (some "b") 30
    ∷ speaks true (some "b") 40
    ∷ disconnects (some "a")
    ∷ speaks true (some "b") 160
    ∷ []

last_context : (converse 120 visits (no_session, [])).1 ≡ (some "b", 160) ∷ []
unfolding converse take_voice_turn after_reset reset_reason session_reason
    cancel_pending_confirmation
last_context = refl

converse-IsIsolated_example : IsIsolated 120 (converse 120 visits (no_session, []))
converse-IsIsolated_example = converse-IsIsolated 120 visits

abbrev frames : List Arrival
frames =
    arrived (text_delta "old")
    ∷ arrived (prompt_response "turn-1" true)
    ∷ quiet true
    ∷ arrived (text_delta "🙂 hi")
    ∷ arrived unhandled
    ∷ arrived agent_end
    ∷ arrived (text_delta "late")
    ∷ []

frame_texts : result (iter_turn_text "turn-1" false [] frames) ≡ some ("old" ∷ "🙂 hi" ∷ [])
unfolding iter_turn_text
frame_texts = refl

iter_turn_text-expected_example :
    result (iter_turn_text "turn-1" false [] frames) ≡ expected "turn-1" frames
iter_turn_text-expected_example = iter_turn_text-expected "turn-1" frames

abbrev turned : Turned
turned = record { texts = "hi" ∷ []; tools = []; outcome = finished }

has_face-reply_example : has_face (concat (reply is_symbol matching false turned)) ≡ true
unfolding first_confirmation
has_face-reply_example = has_face-reply is_symbol matching false turned refl

one_emoji : strip_extra_emojis " 🙂 hi 🚀!" ≡ " 🙂 hi !"
unfolding strip_extra_emojis after_face without_emojis is_extra_emoji is_allowed is_space
one_emoji = refl

two_sentences : truncate_from 2 "One. Two! Three?" ≡ "One. Two!"
unfolding truncate_from
two_sentences = refl
