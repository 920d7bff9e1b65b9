-- ===== src/Hearing/Turn.antt =====
-- A recognised text in receiveAudioHandle.py: `startToChat` and what it calls.
use dotty_stackchan.Hearing.Replies.{
  or_empty, submit_chat, send_set_state, sync_toggles_once, cancel_active_dance, max_out_size,
  check_bind_device, wake_prompt, state_prompt, help_prompt, vision_prompt,
}
use dotty_stackchan.Prelude.{
  ℕ, code, String, Bool, false, not, ◌&&◌, ◌||◌, Option, none, some, List, [], ◌∷◌, ◌==◌, ltb,
  nat_eq, if◌then◌else◌, any, is_blank, strip, to_lower,
}
use dotty_stackchan.Prelude.Texts.{first_char, last_char}
use dotty_stackchan.Hearing.Phrases.{
  is_noise, is_wake_phrase, detect_state_phrase, is_help_request, is_vision_request,
  is_dance_request, detect_dance_name, non_conversational_states,
}
use dotty_stackchan.Hearing.Corrections.{apply_asr_corrections, apply_phrase_corrections}
use dotty_stackchan.Hearing.Connection.{
  Connection, Doing, asr_completed, turn_completed, turn_aborted, abort_handled, stt_message,
  thinking_shown, photo_taken, danced, SpokenEnvelope, no_speaker, no_language, spoken, no_text,
  unread, not_text, content, raised, attempt, limit_check, abort, intent, stt, thinking, photo,
  dance, Surroundings, Did, ◌▹◌,
}

abbrev has_first : ℕ → String → Bool
has_first n s = elim (first_char s) [ none ↦ false | some c ↦ nat_eq (code c) n ]

abbrev has_last : ℕ → String → Bool
has_last n s = elim (last_char s) [ none ↦ false | some c ↦ nat_eq (code c) n ]

abbrev speaker_and_text : SpokenEnvelope → String → Option (Option String × String)
speaker_and_text no_speaker s = some (none, s)
speaker_and_text (no_language speaker) s = some (some speaker, s)
speaker_and_text (spoken speaker said) s = some (some speaker, said)
speaker_and_text no_text s = none

-- The speaker, and the text that was said; `none` is what is no text, at which `_is_noise` raises.
unfoldable pub speaker_and_content : Surroundings → String → Option (Option String × String)
unfolding strip
speaker_and_content w s =
    if has_first 123 (strip s) && has_last 125 (strip s)
    then speaker_and_text (w.read s) s
    else some (none, s)

abbrev pub truthy : Option String → Option String
truthy none = none
truthy (some s) = if is_blank s then none else some s

-- `user_text`; `none` is what is no text, at which the tests that follow raise.
unfoldable pub user_text_of : Surroundings → String → Option String
unfolding strip
user_text_of w s =
    if has_first 123 (strip s)
    then elim (w.json_content s) [ unread ↦ some s | not_text ↦ none | content said ↦ some said ]
    else some s

-- The turn from the dance request on.
unfoldable pub dance_or_chat : Surroundings → String → String → Connection → Did
dance_or_chat w actual_text user_text c =
    if is_dance_request w.classes user_text
    then (
      c,
      attempt w dance
          (danced (detect_dance_name w.choose user_text) ∷ turn_completed w.turn_id ∷ []),
    )
    else submit_chat w user_text actual_text c

-- What the camera saw, or nothing.
unfoldable pub tell_or_else : Surroundings → String → String → Option String → Connection → Did
tell_or_else w actual_text user_text none c = dance_or_chat w actual_text user_text c
tell_or_else w actual_text user_text (some description) c =
    submit_chat w user_text (vision_prompt description user_text) c

-- The turn from the vision request on.
unfoldable pub look_or_else : Surroundings → String → String → Connection → Did
look_or_else w actual_text user_text c =
    if is_vision_request user_text
    then (c, attempt w photo (photo_taken user_text ∷ []))
      ▹ tell_or_else w actual_text user_text (truthy (w.look user_text))
    else dance_or_chat w actual_text user_text c

unfoldable pub help_or_else : Surroundings → String → String → Connection → Did
help_or_else w actual_text user_text c =
    if is_help_request user_text
    then submit_chat w user_text help_prompt c
    else look_or_else w actual_text user_text c

-- The turn from the state phrases on, given the one that is found.
unfoldable pub change_or_else :
    Surroundings → String → String → Option (String × String) → Connection → Did
change_or_else w actual_text user_text none c = help_or_else w actual_text user_text c
change_or_else w actual_text user_text (some (state, ack)) c =
    send_set_state state c ▹ submit_chat w user_text (state_prompt state ack)

abbrev state_of : Connection → String
state_of c =
    let state = or_empty c.current_state in if is_blank state then "idle" else to_lower state

-- What a text asks for, in the order of the tests.
unfoldable pub answer : Surroundings → String → String → Connection → Did
answer w actual_text user_text c =
    if is_wake_phrase user_text && any (λ s. s == state_of c) non_conversational_states
    then send_set_state "idle" c ▹ submit_chat w user_text wake_prompt
    else change_or_else w actual_text user_text (detect_state_phrase user_text) c

unfoldable pub respond : Surroundings → String → Connection → Did
respond w actual_text c = elim (user_text_of w actual_text) [
  | none ↦ (c, raised ∷ [])
  | some user_text ↦ answer w actual_text user_text c
]

-- `handleAbortMessage`
abbrev pub handle_abort : Surroundings → Connection → Did
handle_abort w c = (w.after_abort c, attempt w abort (abort_handled ∷ []))

-- The clean-up of a dance that is running.
abbrev pub end_dance : Surroundings → Connection → Did
end_dance w c = if c.dance_running then cancel_active_dance w c else (c, [])

abbrev pub aborted_turn : String → Option String → List Doing
aborted_turn turn_id none = []
aborted_turn turn_id (some previous) =
    if is_blank previous || previous == turn_id then [] else turn_aborted previous ∷ []

-- The end of the turn that still speaks.
unfoldable pub end_predecessor : Surroundings → Option String → Connection → Did
end_predecessor w previous c =
    if c.client_is_speaking && not (c.client_listen_mode == "manual")
    then (c, aborted_turn w.turn_id previous) ▹ end_dance w ▹ handle_abort w
    else (c, [])

-- The intents of the server, or else the answer.
unfoldable pub intent_or_respond : Surroundings → String → Connection → Did
intent_or_respond w actual_text c =
    let i = w.handle_user_intent actual_text c in
    if w.fails intent
    then (i.0, raised ∷ [])
    else if i.1
    then (i.0, turn_completed w.turn_id ∷ [])
    else (i.0, attempt w stt (stt_message actual_text ∷ []))
      ▹ (λ d. (d, attempt w thinking (thinking_shown ∷ [])))
      ▹ respond w actual_text

-- A turn of an accepted text.
unfoldable pub begin_turn : Surroundings → String → Connection → Did
begin_turn w actual_text c =
    (
      record c { activity_start_ts = w.now; active_turn_id = some w.turn_id },
      asr_completed w.turn_id actual_text ∷ [],
    )
    ▹ end_predecessor w c.active_turn_id
    ▹ (λ d. intent_or_respond w actual_text (record d { client_abort = false }))

-- A text that is no noise, once the toggles are sent.
unfoldable pub accept : Surroundings → Option String → String → Connection → Did
accept w speaker s c =
    let c' = record c { current_speaker = truthy speaker } in
    if c.need_bind
    then check_bind_device w c'
    else if ltb 0 c.max_output_size && w.fails limit_check
    then (c', raised ∷ [])
    else if ltb 0 c.max_output_size && w.limit_reached
    then max_out_size w c'
    else begin_turn w s c'

-- A text, with its speaker.
unfoldable pub hear : Surroundings → Option String → String → Connection → Did
hear w speaker said c =
    if is_noise w.min_chars said
    then (c, [])
    else sync_toggles_once w c
      ▹ accept w speaker (apply_phrase_corrections w.matcher (apply_asr_corrections w.classes said))

-- `startToChat`
unfoldable pub start_to_chat : Surroundings → String → Connection → Did
start_to_chat w s c = elim (speaker_and_content w s) [
  | none ↦ (c, raised ∷ [])
  | some (speaker, said) ↦ hear w speaker said c
]
