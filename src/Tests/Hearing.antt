-- ===== src/Tests/Hearing.antt =====
-- Turns of the voice server, and its theorem at a concrete turn.
use dotty_stackchan.Prelude.{
  code, ◌≡◌, refl, true, false, ◌&&◌, ◌||◌, none, some, [], ◌∷◌, ◌==◌, leb, if◌then◌else◌, strip,
  to_lower, append, concat, join, words, after_prefix, contains,
}
use dotty_stackchan.Dict.{lookup, get_or}
use dotty_stackchan.Prelude.Texts.{is_space_code}
use dotty_stackchan.Hearing.Phrases.{
  Classes, is_noise, letters, mentions, first_trigger, detect_state_phrase, is_wake_phrase,
}
use dotty_stackchan.Hearing.Corrections.{
  Matcher, apply_asr_corrections, correct_from, corrected, apply_phrase_corrections, try_phrases,
  try_windows, try_window, window, replace_window,
}
use dotty_stackchan.Hearing.Connection.{
  Connection, asr_completed, turn_aborted, abort_handled, stt_message, thinking_shown, state_set,
  chat_submitted, no_speaker, unread, raised, dance_cancelled, abort, Surroundings,
}
use dotty_stackchan.Hearing.Turn.{
  start_to_chat, hear, answer, speaker_and_content, accept, begin_turn, end_predecessor,
  intent_or_respond, respond, user_text_of, change_or_else,
}
use dotty_stackchan.Hearing.Replies.{
  cancel_active_dance, sync_toggles_once, submit_chat, with_room_view_marker, state_prompt,
}
use dotty_stackchan.Hearing.Settled.{IsSettled, start_to_chat-IsSettled}

abbrev classes : Classes
classes = record {
  is_word = λ c. leb 97 (code c) && leb (code c) 122 || leb 65 (code c) && leb (code c) 90;
}

-- Only equal texts are similar, by all hundredths.
abbrev exact : Matcher
exact = record {
  hundredth = 1;
  ratio = λ a b. if a == b then 100 else if a == "take a foto" then 80 else 0;
}

taken_down : apply_asr_corrections classes "hey Doty, danse!" ≡ "hey Dotty, dance!"
unfolding correct_from corrected get_or lookup to_lower append
taken_down = refl

closest_phrase : apply_phrase_corrections exact "Please take a foto now" ≡ "Please take a photo now"
unfolding apply_phrase_corrections try_phrases try_windows try_window window replace_window words
    join append to_lower strip is_space_code
closest_phrase = refl

abbrev quiet_room : Surroundings
quiet_room = record {
  min_chars = 2;
  kid_on = true;
  smart_on = false;
  now = 50;
  turn_id = "t2";
  classes = classes;
  matcher = exact;
  read = λ s. no_speaker;
  json_content = λ s. unread;
  limit_reached = false;
  after_abort = λ c. record c { client_abort = true; client_is_speaking = false };
  handle_user_intent = λ s c. (c, false);
  look = λ s. none;
  choose = λ names. "tetris";
  fails = λ a. false;
}

abbrev speaking : Connection
speaking = record {
  toggles_synced = true;
  current_speaker = none;
  need_bind = false;
  bind_code = none;
  max_output_size = 0;
  active_turn_id = some "t1";
  activity_start_ts = 20;
  pending_activity_turns = [];
  client_is_speaking = true;
  client_listen_mode = "auto";
  client_abort = false;
  current_state = none;
  desired_state = none;
  dance_running = false;
  dance_generation = 0;
  room_description = none;
  room_match_person_id = none;
  close_after_chat = false;
  last_activity_time = 0;
  just_woken_up = false;
  resume_pending = false;
}

sleepy_turn :
    (start_to_chat quiet_room "Goodnight Dotty" speaking).1
    ≡ asr_completed "t2" "Goodnight Dotty"
      ∷ turn_aborted "t1"
      ∷ abort_handled
      ∷ stt_message "Goodnight Dotty"
      ∷ thinking_shown
      ∷ state_set "sleep"
      ∷ chat_submitted (record {
        content =
            "[STATE_CHANGE:sleep] You just entered sleep state. Say only a SHORT one-liner (under 12 words). Suggested: 'Goodnight! 😴'";
        turn_id = "t2";
        request_text = "Goodnight Dotty";
      })
      ∷ []
unfolding start_to_chat hear answer speaker_and_content sync_toggles_once accept begin_turn
    end_predecessor intent_or_respond respond user_text_of change_or_else submit_chat
    with_room_view_marker state_prompt is_noise letters mentions first_trigger detect_state_phrase
    is_wake_phrase apply_phrase_corrections try_phrases try_windows try_window window replace_window
    words join append concat to_lower strip contains after_prefix correct_from corrected get_or
    lookup is_space_code
sleepy_turn = refl

start_to_chat-IsSettled_example :
    IsSettled quiet_room (start_to_chat quiet_room "play tetris" speaking)
start_to_chat-IsSettled_example = start_to_chat-IsSettled quiet_room "play tetris" speaking

-- `handleAbortMessage` raises while a dance is running.
abbrev stuck : Surroundings
stuck = record quiet_room { fails = λ a. elim a [ abort ↦ true | _ ↦ false ] }

turn_lost :
    (start_to_chat stuck "Goodnight Dotty" (record speaking { dance_running = true })).1
    ≡ asr_completed "t2" "Goodnight Dotty"
      ∷ turn_aborted "t1"
      ∷ dance_cancelled
      ∷ state_set "idle"
      ∷ raised
      ∷ []
unfolding start_to_chat hear speaker_and_content sync_toggles_once accept begin_turn end_predecessor
    cancel_active_dance is_noise letters apply_phrase_corrections try_phrases try_windows try_window
    window replace_window words join append concat to_lower strip contains after_prefix correct_from
    corrected get_or lookup is_space_code
turn_lost = refl
