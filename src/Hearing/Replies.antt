-- ===== src/Hearing/Replies.antt =====
-- What the handlers of receiveAudioHandle.py send and submit, and their prompts.
use dotty_stackchan.Prelude.{
  ◌+◌, String, true, false, not, Option, none, some, [], ◌∷◌, ◌++◌, nat_eq, if◌then◌else◌, is_blank,
  concat,
}
use dotty_stackchan.Prelude.Texts.{text_length}
use dotty_stackchan.Hearing.Connection.{
  attempt, executor, dance_cleanup, limit, bind, raised, Connection, toggle_set, dance_cancelled,
  stt_message, state_set, chat_submitted, speech_queued, Surroundings, Did,
}

abbrev pub or_empty : Option String → String
or_empty none = ""
or_empty (some s) = s

-- `_with_room_view_marker`
unfoldable pub with_room_view_marker : Connection → String → String
unfolding concat
with_room_view_marker c s =
    let desc = or_empty c.room_description in
    if is_blank desc
    then s
    else concat ("[ROOM_VIEW]\n" ∷ desc ∷ "\n" ∷ or_empty c.room_match_person_id ∷ "\n" ∷ s ∷ [])

-- `_submit_chat`, for the turn of the surroundings.
unfoldable pub submit_chat : Surroundings → String → String → Connection → Did
submit_chat w request_text s c = (
  record c {
    active_turn_id = some w.turn_id;
    pending_activity_turns = c.pending_activity_turns ++ (w.turn_id, c.activity_start_ts) ∷ [];
  },
  attempt w executor (
      chat_submitted (record {
        content = with_room_view_marker c s;
        turn_id = w.turn_id;
        request_text = if is_blank request_text then s else request_text;
      })
      ∷ []),
)

-- `_send_set_state`
abbrev pub send_set_state : String → Connection → Did
send_set_state state c = (record c { desired_state = some state }, state_set state ∷ [])

-- `_sync_toggles_once`
unfoldable pub sync_toggles_once : Surroundings → Connection → Did
sync_toggles_once w c = if c.toggles_synced then (c, []) else (
  record c { toggles_synced = true },
  toggle_set "kid_mode" w.kid_on ∷ toggle_set "smart_mode" w.smart_on ∷ [],
)

-- `_cancel_active_dance`
unfoldable pub cancel_active_dance : Surroundings → Connection → Did
cancel_active_dance w c = (
  record c {
    dance_generation = c.dance_generation + 1;
    desired_state = some "idle";
    dance_running = false;
  },
  dance_cancelled ∷ attempt w dance_cleanup (state_set "idle" ∷ []),
)

-- `max_out_size`, where its sound file is there.
unfoldable pub max_out_size : Surroundings → Connection → Did
max_out_size w c =
    let s : String =
      "Sorry, I need to take a break now. Let's talk again tomorrow — same time, same place! Bye bye!" in
    if w.fails limit then (record c { client_abort = false }, raised ∷ []) else (
      record c { client_abort = false; close_after_chat = true },
      stt_message s ∷ speech_queued (some s) ∷ [],
    )

-- `check_bind_device`, where its sound files are there.
unfoldable pub check_bind_device : Surroundings → Connection → Did
unfolding concat
check_bind_device w c =
    let code = or_empty c.bind_code in
    let prompt =
      concat ("Please open the control panel and enter " ∷ code ∷ " to bind this device." ∷ []) in
    let lost : String =
      "Could not find device version information. Please configure the OTA URL correctly and rebuild the firmware." in
    if is_blank code
    then (
      record c { client_abort = false },
      attempt w bind (stt_message lost ∷ speech_queued (some lost) ∷ []),
    )
    else if not (nat_eq (text_length code) 6)
    then (
      c,
      attempt w bind (stt_message "Bind code format error, please check the configuration." ∷ []),
    )
    else (
      c,
      attempt w bind (
          stt_message prompt
          ∷ speech_queued (some prompt)
          ∷ speech_queued none
          ∷ speech_queued none
          ∷ speech_queued none
          ∷ speech_queued none
          ∷ speech_queued none
          ∷ speech_queued none
          ∷ speech_queued none
          ∷ []),
    )

unfoldable pub wake_prompt : String
wake_prompt =
    "[STATE_WAKE] You just woke up. Say only a SHORT greeting (under 10 words). Examples: 'I'm here!' / 'Hello again.'"

unfoldable pub state_prompt : String → String → String
unfolding concat
state_prompt state ack = concat (
    "[STATE_CHANGE:" ∷ state ∷ "] You just entered " ∷ state
    ∷ " state. Say only a SHORT one-liner (under 12 words). Suggested: '" ∷ ack ∷ "'" ∷ [])

unfoldable pub help_prompt : String
unfolding concat
help_prompt = concat (
    "[HELP_SUMMARY] The user asked what you can do. Reply in 2-3 short "
    ∷ "sentences listing your main abilities, in plain spoken language: "
    ∷ "you can chat, look around with your camera (\"what do you see\"), "
    ∷ "tell stories (\"tell me a story\"), dance and sing (\"do the "
    ∷ "macarena\", \"sing a song\"), and switch states like sleep or "
    ∷ "watching the room (\"go to sleep\", \"keep watch\"). Keep it "
    ∷ "warm and brief, do NOT list every phrase — just the categories." ∷ [])

unfoldable pub vision_prompt : String → String → String
unfolding concat
vision_prompt description user_text = concat (
    "[You just used your camera and took a photo. The photo shows: " ∷ description
    ∷ "]\nThe child said: \"" ∷ user_text
    ∷ "\"\nRespond naturally about what you see, as if looking at it together." ∷ [])
