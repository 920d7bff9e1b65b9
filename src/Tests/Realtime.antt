-- ===== src/Tests/Realtime.antt =====
-- Runs of the realtime bridge, and its theorems at concrete inputs.
use dotty_stackchan.Prelude.{
  sym, ◌≡◌, refl, true, false, none, some, List, [], ◌∷◌, strip, to_lower,
}
use dotty_stackchan.Realtime.State.{
  session_opened, input_cleared, audio_appended, face_neutral, sentence_start, frame_played,
  tts_stop, queues_cleared, status_cleared, audio_states_reset, Conn, Bridge, new_bridge, Settings,
  World,
}
use dotty_stackchan.Realtime.Device.{claim_voice_route, drop_session, disconnect, interrupt}
use dotty_stackchan.Realtime.Input.{
  opus, listen, start, handle_device_message, route_message, on_listen, begin_input,
  ensure_connected, is_ready, reconnect, open_turn, push_opus,
}
use dotty_stackchan.Realtime.Tools.{Agents}
use dotty_stackchan.Realtime.Events.{
  response_started, audio_delta, receive_event, handle_server_event, prepare_put, complete_put,
}
use dotty_stackchan.Realtime.Player.{play_output, play_entry, play_packet}
use dotty_stackchan.Realtime.System.{
  Action, messages, serves, prepares, completes, plays, step, run_steps,
}
use dotty_stackchan.Realtime.KidMode.{sounds, sounds-step}
use mathlib.Core.Path.{subst}
use dotty_stackchan.Realtime.Barge.Past.{AreNewPending, PlaysNew}
use dotty_stackchan.Realtime.Interruption.{interrupt-PlaysNew}
use dotty_stackchan.Realtime.Coherence.Parts.{IsCoherent}
use dotty_stackchan.Realtime.Coherence.{run_steps-IsCoherent}
use dotty_stackchan.Realtime.Drain.{play_turns, frames, play_turns_drains}

abbrev settings : Settings
settings = record {
  enabled = true;
  configured = true;
  codex_web_enabled = false;
  has_codex_token = false;
}

abbrev agents : Agents
agents = record { codex = λ q. none; local = none }

abbrev world : World
world = record {
  kid_mode = false;
  is_marin = true;
  connects = true;
  sends = true;
  device_takes = true;
}

abbrev kid_world : World
kid_world = record world { kid_mode = true }

abbrev conn : Conn
conn = record {
  client_listen_mode = "manual";
  close_after_chat = true;
  client_abort = false;
  client_is_speaking = false;
  sentence_id = some "local";
}

-- The microphone opens, a packet is heard, and a response of two packets arrives and plays partly.
abbrev talk : List (World × Action)
talk =
    (world, messages (listen (some "manual") start))
    ∷ (world, messages (opus (some (1 ∷ []))))
    ∷ (world, serves (response_started (some "r1")))
    ∷ (world, serves (audio_delta (some ((10 ∷ []) ∷ (11 ∷ []) ∷ []))))
    ∷ (world, prepares)
    ∷ (world, completes)
    ∷ (world, prepares)
    ∷ (world, completes)
    ∷ (world, plays)
    ∷ []

talked :
    (run_steps settings agents talk (new_bridge conn)).1
    ≡ session_opened
      ∷ queues_cleared
      ∷ tts_stop
      ∷ status_cleared
      ∷ audio_states_reset
      ∷ input_cleared
      ∷ audio_appended (1 ∷ [])
      ∷ face_neutral
      ∷ sentence_start ""
      ∷ frame_played (10 ∷ [])
      ∷ []
unfolding run_steps step handle_device_message route_message on_listen begin_input ensure_connected
    is_ready reconnect open_turn push_opus receive_event handle_server_event prepare_put
    complete_put play_output play_entry play_packet claim_voice_route disconnect drop_session strip
    to_lower
talked = refl

abbrev talking : Bridge
talking = (run_steps settings agents talk (new_bridge conn)).0

run_steps-IsCoherent_example : IsCoherent (run_steps settings agents talk (new_bridge conn)).0
run_steps-IsCoherent_example = run_steps-IsCoherent settings agents talk conn

sounds-step_example : sounds (step settings agents kid_world plays talking).1 ≡ false
sounds-step_example = sounds-step settings agents kid_world plays talking refl

-- After the interruption another response plays one packet.
abbrev next_answer : List (World × Action)
next_answer =
    (world, plays)
    ∷ (world, serves (response_started (some "r2")))
    ∷ (world, serves (audio_delta (some ((20 ∷ []) ∷ []))))
    ∷ (world, prepares)
    ∷ (world, completes)
    ∷ (world, plays)
    ∷ []

all_put : talking.unqueued ≡ []
unfolding run_steps step handle_device_message route_message on_listen begin_input ensure_connected
    is_ready reconnect open_turn push_opus receive_event handle_server_event prepare_put
    complete_put play_output play_entry play_packet claim_voice_route disconnect drop_session strip
    to_lower
all_put = refl

interrupt-PlaysNew_example :
    PlaysNew
      (λ p. p ≡ 20 ∷ [])
      (run_steps settings agents next_answer (interrupt world talking).0).1
interrupt-PlaysNew_example =
    interrupt-PlaysNew (λ p. p ≡ 20 ∷ []) settings agents conn talk world next_answer
      (subst (AreNewPending (λ p. p ≡ 20 ∷ [])) (sym all_put) tt)
      (tt, (tt, ((refl, tt), (tt, (tt, (tt, tt))))))

-- A queue with a packet of an interrupted response.
abbrev queued : Bridge
queued = record (new_bridge conn) {
  player_done = some false;
  playback_epoch = 1;
  output_queue = (0, some (1 ∷ [])) ∷ (1, some (2 ∷ [])) ∷ (1, none) ∷ [];
}

play_turns_drains_example :
    ((play_turns world 3 queued).0.output_queue ≡ [])
    × (frames (play_turns world 3 queued).1 ≡ (2 ∷ []) ∷ [])
play_turns_drains_example = play_turns_drains world queued refl refl refl
