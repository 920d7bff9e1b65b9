-- ===== src/Realtime/KidMode.antt =====
-- That no sound passes between the device and OpenAI in kid mode, or without the realtime profile.
use dotty_stackchan.Prelude.{
  ◌≡◌, refl, ◌∙◌, Bool, true, false, not, ◌||◌, none, some, List, [], ◌∷◌, ◌++◌, arith,
  if◌then◌else◌, any,
}
use dotty_stackchan.Realtime.State.{
  Entry, Effect, response_created, is_sound, Bridge, Settings, World, connected,
}
use dotty_stackchan.Realtime.Device.{
  stop_device_audio, drop_session, disconnect, interrupt, release_voice_route,
}
use dotty_stackchan.Realtime.Input.{
  DeviceMessage, handle_device_message, refresh_requested_profile, close,
}
use dotty_stackchan.Realtime.Tools.{ToolCall, Agents, answer_calls, complete_tool_calls}
use dotty_stackchan.Realtime.Events.{
  ServerEvent, session_event, transcription_completed, response_started, output_item_added,
  transcript_delta, audio_delta, audio_done, response_done, error_event, connection_lost,
  handle_server_event, receive_event,
}
use dotty_stackchan.Realtime.Player.{play_output, play_entry, end_sound, is_playing, take_entry}
use dotty_stackchan.Realtime.System.{
  Action, messages, serves, prepares, completes, plays, refreshes, closes, step,
}

abbrev pub sounds : List Effect → Bool
sounds effects = any is_sound effects

-- The route is shut: kid mode is on, or the device asks for the local voice.
abbrev pub is_shut : World → Bool
is_shut w = not w.is_marin || w.kid_mode

sounds-append : (xs ys : List Effect) → sounds (xs ++ ys) ≡ (sounds xs || sounds ys)
sounds-append [] ys = refl
sounds-append (x ∷ xs) ys = ground (arith, sounds-append xs ys)

sounds-stop_device_audio : (w : World) (b : Bridge) → sounds (stop_device_audio w b).1 ≡ false
unfolding stop_device_audio
sounds-stop_device_audio w b = ground arith

sounds-interrupt : (w : World) (b : Bridge) → sounds (interrupt w b).1 ≡ false
unfolding interrupt stop_device_audio
sounds-interrupt w b = ground arith

sounds-drop_session : (b : Bridge) → sounds (drop_session b).1 ≡ false
unfolding drop_session
sounds-drop_session b = ground arith

sounds-disconnect : (w : World) (stop : Bool) (b : Bridge) → sounds (disconnect w stop b).1 ≡ false
unfolding disconnect
sounds-disconnect w true b =
    sounds-append (stop_device_audio w b).1 (drop_session (stop_device_audio w b).0).1
    ∙ ground (arith, sounds-stop_device_audio w b, sounds-drop_session (stop_device_audio w b).0)
sounds-disconnect w false b = sounds-drop_session b

pub connected-disconnect :
    (w : World) (stop : Bool) (b : Bridge) → connected (disconnect w stop b).0 ≡ false
unfolding disconnect drop_session release_voice_route
connected-disconnect w stop b = ground arith

sounds-answer_calls :
    (c : Settings) (w : World) (a : Agents) (calls : List ToolCall)
    → sounds (answer_calls c w a calls).0 ≡ false
unfolding answer_calls
sounds-answer_calls c w a [] = refl
sounds-answer_calls c w a (call ∷ calls) = ground (arith, sounds-answer_calls c w a calls)

sounds-complete_tool_calls :
    (c : Settings) (w : World) (a : Agents) (calls : List ToolCall)
    → sounds (complete_tool_calls c w a calls).0 ≡ false
unfolding complete_tool_calls
sounds-complete_tool_calls c w a calls = ground (
  arith,
  sounds-append (answer_calls c w a calls).0 (response_created ∷ []),
  sounds-answer_calls c w a calls,
)

sounds-handle_server_event :
    (c : Settings) (w : World) (a : Agents) (e : ServerEvent) (b : Bridge)
    → sounds (handle_server_event c w a e b).1 ≡ false
unfolding handle_server_event
sounds-handle_server_event c w a session_event b = refl
sounds-handle_server_event c w a (transcription_completed text) b = ground arith
sounds-handle_server_event c w a (response_started id) b = refl
sounds-handle_server_event c w a (output_item_added is_message id) b = refl
sounds-handle_server_event c w a (transcript_delta delta) b = refl
sounds-handle_server_event c w a (audio_delta none) b = refl
sounds-handle_server_event c w a (audio_delta (some packets)) b = refl
sounds-handle_server_event c w a (audio_done flushed) b = refl
sounds-handle_server_event c w a (response_done [] flushed) b = refl
sounds-handle_server_event c w a (response_done (call ∷ calls) flushed) b =
    ground (arith, sounds-complete_tool_calls c w a (call ∷ calls))
sounds-handle_server_event c w a error_event b = refl
sounds-handle_server_event c w a connection_lost b = refl

sounds-end_sound : (w : World) (b : Bridge) → sounds (end_sound w b).1 ≡ false
unfolding end_sound
sounds-end_sound w b = sounds-stop_device_audio w b

sounds-play_entry :
    (w : World) (entry : Entry) (b : Bridge)
    → is_shut w ≡ true
    → sounds (play_entry w entry b).1 ≡ false
unfolding play_entry
sounds-play_entry w (epoch, sound) b shut = ground (arith, sounds-interrupt w b)

sounds-play_output :
    (w : World) (b : Bridge) → is_shut w ≡ true → sounds (play_output w b).1 ≡ false
unfolding play_output
sounds-play_output w b shut = by_queue b.output_queue
  where
    by_queue :
        (queue : List Entry)
        → sounds (if is_playing b then take_entry w queue b else (b, [])).1 ≡ false
    by_queue [] = ground arith
    by_queue (entry ∷ rest) =
        ground (arith, sounds-play_entry w entry (record b { output_queue = rest }) shut)

sounds-message :
    (c : Settings) (w : World) (m : DeviceMessage) (b : Bridge)
    → is_shut w ≡ true
    → sounds (handle_device_message c w m b).0.1 ≡ false
unfolding handle_device_message
sounds-message c w m b shut = ground (arith, sounds-disconnect w true b)

sounds-receive_event :
    (c : Settings) (w : World) (a : Agents) (e : ServerEvent) (b : Bridge)
    → sounds (receive_event c w a e b).1 ≡ false
unfolding receive_event
sounds-receive_event c w a e b = ground (arith, sounds-handle_server_event c w a e b)

-- Whatever the state of the bridge, a step that meets kid mode or the local profile passes no sound:
-- neither the microphone's to OpenAI nor the session's to the device.
pub sounds-step :
    (c : Settings) (a : Agents) (w : World) (x : Action) (b : Bridge)
    → is_shut w ≡ true
    → sounds (step c a w x b).1 ≡ false
unfolding step refresh_requested_profile close
sounds-step c a w (messages m) b shut = sounds-message c w m b shut
sounds-step c a w (serves e) b shut = sounds-receive_event c w a e b
sounds-step c a w prepares b shut = refl
sounds-step c a w completes b shut = refl
sounds-step c a w plays b shut = sounds-play_output w b shut
sounds-step c a w refreshes b shut = ground (arith, sounds-disconnect w true b)
sounds-step c a w closes b shut = sounds-disconnect w true (record b { closed = true })
