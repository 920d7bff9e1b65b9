-- ===== src/Realtime/Input.antt =====
-- The messages of the device in `OpenAIRealtimeBridge`: connecting, the microphone, and
-- `handle_device_message`.
use dotty_stackchan.Prelude.{
  ◌+◌, String, Bool, true, false, not, ◌&&◌, ◌||◌, Option, none, some, [], ◌∷◌, ◌++◌, ◌==◌, nat_eq,
  if◌then◌else◌, is_empty, is_blank, strip, to_lower,
}
use dotty_stackchan.Realtime.State.{
  Packet, session_opened, input_cleared, audio_appended, input_committed, response_created,
  text_created, audio_states_reset, Bridge, Settings, World, connected, Done,
}
use dotty_stackchan.Realtime.Device.{claim_voice_route, disconnect, interrupt}

-- A handler's effects, and whether it consumed the message.
abbrev pub Answer : Type 0
Answer = Done × Bool

abbrev pub listen_mode : Bridge → String
listen_mode b = to_lower (strip b.conn.client_listen_mode)

abbrev pub uses_server_vad : Bridge → Bool
uses_server_vad b = listen_mode b == "auto" || listen_mode b == "realtime"

abbrev is_mode : Option String → String → Bool
is_mode none mode = false
is_mode (some m) mode = m == mode

-- A live session for the mode that the device asks for.
unfoldable pub is_ready : Bridge → Bool
unfolding to_lower strip
is_ready b =
    b.ws
    && elim b.receiver_done [ none ↦ false | some done ↦ not done ]
    && is_mode b.session_listen_mode (listen_mode b)

abbrev pub open_session : Bridge → Bridge
open_session b = record b {
  ws = true;
  codec = true;
  receiver_done = some false;
  player_done = some false;
  session_listen_mode = some (listen_mode b);
}

-- The part of `ensure_connected` under the lock: another session is made, or none is left.
unfoldable pub reconnect : World → Bridge → Answer
unfolding disconnect to_lower strip
reconnect w b =
    let r = disconnect w false b in
    if w.connects then ((open_session r.0, r.1 ++ session_opened ∷ []), true) else (r, false)

-- `ensure_connected`
unfoldable pub ensure_connected : Settings → World → Bridge → Answer
ensure_connected c w b =
    if b.closed || not c.enabled || w.kid_mode || not w.is_marin
    then ((b, []), false)
    else if not c.configured
    then ((record b { warned_missing_key = true }, []), false)
    else if is_ready b
    then ((b, []), true)
    else reconnect w b

abbrev pub mic_open : Bridge → Bridge
mic_open b = record b { active_input = true; input_packets = 0 }

-- `begin_input`, once there is a session.
unfoldable pub open_turn : World → Bridge → Answer
open_turn w b =
    let i = if b.response_active || b.tts_started then interrupt w b else (b, []) in
    let k = claim_voice_route w i.0 in
    let before = i.1 ++ k.1 ++ audio_states_reset ∷ [] in
    let d = disconnect w false (mic_open k.0) in
    if w.sends
    then ((mic_open k.0, before ++ input_cleared ∷ []), true)
    else ((d.0, before ++ d.1), false)

abbrev pub and_then : Answer → (Bridge → Answer) → Answer
and_then ((b, done), false) f = ((b, done), false)
and_then ((b, done), true) f = let r = f b in ((r.0.0, done ++ r.0.1), r.1)

-- `begin_input`
unfoldable pub begin_input : Settings → World → Bridge → Answer
begin_input c w b = and_then (ensure_connected c w b) (open_turn w)

-- `push_opus`, for a packet that the codec decodes to `pcm`, or raises on.
unfoldable pub push_opus : World → Option Packet → Bridge → Answer
push_opus w none b =
    let d = disconnect w true (record b { active_input = false }) in
    if not b.active_input || not b.ws || not b.codec
    then ((b, []), false)
    else if b.response_active || b.tts_started
    then ((b, []), true)
    else (d, false)
push_opus w (some pcm) b =
    let d = disconnect w true (record b { active_input = false }) in
    if not b.active_input || not b.ws || not b.codec
    then ((b, []), false)
    else if b.response_active || b.tts_started || is_empty pcm
    then ((b, []), true)
    else if w.sends
    then ((record b { input_packets = b.input_packets + 1 }, audio_appended pcm ∷ []), true)
    else (d, false)

-- `end_input`
unfoldable pub end_input : World → Bridge → Answer
unfolding to_lower strip
end_input w b =
    let b' = record b { active_input = false } in
    let d = disconnect w true b' in
    if not b.active_input
    then ((b, []), false)
    else if uses_server_vad b || nat_eq b.input_packets 0
    then ((b', []), true)
    else if w.sends
    then ((b', input_committed ∷ response_created ∷ []), true)
    else (d, true)

abbrev pub send_user_text : World → String → Bridge → Answer
send_user_text w text b =
    let d = disconnect w false b in
    if w.sends then ((b, text_created (strip text) ∷ response_created ∷ []), true) else (d, false)

-- `send_text`
unfoldable pub send_text : Settings → World → String → Bridge → Answer
send_text c w text b =
    if is_blank (strip text)
    then ((b, []), false)
    else and_then (ensure_connected c w b) (send_user_text w text)

pub data ListenState : Type 0 where
  start stop other_state : ListenState
  detect : Option String → ListenState

-- A message of the device: a packet as the codec decodes it, or a JSON text.
pub data DeviceMessage : Type 0 where
  opus : Option Packet → DeviceMessage
  listen : Option String → ListenState → DeviceMessage
  abort other : DeviceMessage

abbrev pub with_mode : Option String → Bridge → Bridge
with_mode none b = b
with_mode (some mode) b = record b { conn = record b.conn { client_listen_mode = mode } }

unfoldable pub on_listen : Settings → World → ListenState → Bridge → Answer
on_listen c w start b = begin_input c w b
on_listen c w stop b = end_input w b
on_listen c w (detect (some text)) b = send_text c w text b
on_listen c w _ b = ((b, []), false)

-- `handle_device_message`, where the route is open.
unfoldable pub route_message : Settings → World → DeviceMessage → Bridge → Answer
route_message c w (opus pcm) b =
    if b.owns_voice_route && not b.active_input then ((b, []), true) else push_opus w pcm b
route_message c w (listen mode state) b = on_listen c w state (with_mode mode b)
route_message c w abort b = ((if connected b then interrupt w b else (b, [])), false)
route_message c w other b = ((b, []), false)

-- `handle_device_message`
unfoldable pub handle_device_message : Settings → World → DeviceMessage → Bridge → Answer
handle_device_message c w m b =
    if not c.enabled
    then ((b, []), false)
    else if not w.is_marin || w.kid_mode
    then (if connected b then disconnect w true b else (b, []), false)
    else route_message c w m b

-- `refresh_requested_profile`
unfoldable pub refresh_requested_profile : World → Bridge → Done
refresh_requested_profile w b =
    if (not w.is_marin || w.kid_mode) && connected b then disconnect w true b else (b, [])

-- `close`
unfoldable pub close : World → Bridge → Done
close w b = disconnect w true (record b { closed = true })
