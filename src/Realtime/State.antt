-- ===== src/Realtime/State.antt =====
-- The state of `OpenAIRealtimeBridge` of custom-providers/openai_realtime/bridge.py and of the
-- connection that it wraps, and what its handlers send and call.
use dotty_stackchan.Prelude.{ℕ, String, Bool, true, false, ◌&&◌, Option, none, some, List, [], ◌++◌}

-- The bytes of a sound frame.
abbrev pub Packet : Type 0
Packet = List ℕ

-- What a handler does outside the bridge, in order. The first nine are sent to OpenAI, the next six
-- to the device, and the others are calls.
pub data Effect : Type 0 where
  session_opened session_closed input_cleared input_committed response_created : Effect
  audio_appended : Packet → Effect
  text_created : String → Effect
  response_cancelled : Effect
  item_truncated : String → ℕ → Effect
  tool_answered : String → String → Effect
  tts_stop tts_start face_neutral : Effect
  stt : String → Effect
  sentence_start : String → Effect
  frame_played : Packet → Effect
  codec_reset queues_cleared status_cleared audio_states_reset : Effect

-- The microphone's sound on its way to OpenAI, or sound of the session on its way to the device.
abbrev pub is_sound : Effect → Bool
is_sound (audio_appended p) = true
is_sound (frame_played p) = true
is_sound _ = false

-- A packet that `_handle_server_event` still has to put on the queue, or the end of the sound.
pub data Pending : Type 0 where
  packet : Packet → Pending
  audio_end : Pending

-- An entry of the output queue: the epoch that it was made in, and a packet, or `None` for the end.
abbrev pub Entry : Type 0
Entry = ℕ × Option Packet

pub record Conn : Type 0 where
  pub client_listen_mode : String
  pub close_after_chat : Bool
  pub client_abort : Bool
  pub client_is_speaking : Bool
  pub sentence_id : Option String

-- The tasks are `none` where the bridge has none, and hold otherwise whether they are done. An
-- `await put` that waits for room holds the entry, in `blocked`.
pub record Bridge : Type 0 where
  pub conn : Conn
  pub ws : Bool
  pub codec : Bool
  pub receiver_done : Option Bool
  pub player_done : Option Bool
  pub output_queue : List Entry
  pub blocked : Option Entry
  pub unqueued : List Pending
  pub closed : Bool
  pub active_input : Bool
  pub input_packets : ℕ
  pub response_active : Bool
  pub response_id : Option String
  pub output_item_id : Option String
  pub played_ms : ℕ
  pub playback_epoch : ℕ
  pub audio_done_epoch : Option ℕ
  pub tts_started : Bool
  pub transcript : String
  pub warned_missing_key : Bool
  pub session_listen_mode : Option String
  pub owns_voice_route : Bool
  pub local_close_after_chat : Bool

-- `OpenAIRealtimeBridge(conn)`
abbrev pub new_bridge : Conn → Bridge
new_bridge conn = record {
  conn = conn;
  ws = false;
  codec = false;
  receiver_done = none;
  player_done = none;
  output_queue = [];
  blocked = none;
  unqueued = [];
  closed = false;
  active_input = false;
  input_packets = 0;
  response_active = false;
  response_id = none;
  output_item_id = none;
  played_ms = 0;
  playback_epoch = 0;
  audio_done_epoch = none;
  tts_started = false;
  transcript = "";
  warned_missing_key = false;
  session_listen_mode = none;
  owns_voice_route = false;
  local_close_after_chat = conn.close_after_chat;
}

abbrev pub queue_limit : ℕ
queue_limit = 200

abbrev pub frame_ms : ℕ
frame_ms = 60

-- `RealtimeSettings`, as far as the bridge decides by it.
pub record Settings : Type 0 where
  pub enabled : Bool
  pub configured : Bool
  pub codex_web_enabled : Bool
  pub has_codex_token : Bool

-- What a step meets: the files that it reads, whether a connection comes about in time, and whether
-- OpenAI and the device take what is sent to them in this step.
pub record World : Type 0 where
  pub kid_mode : Bool
  pub is_marin : Bool
  pub connects : Bool
  pub sends : Bool
  pub device_takes : Bool

-- `connected`
abbrev pub connected : Bridge → Bool
connected b = b.ws && elim b.receiver_done [ none ↦ false | some _ ↦ true ]

-- The bridge, and what was done.
abbrev pub Done : Type 0
Done = Bridge × List Effect

-- One part of a handler after another.
infixl 5 ◌▸◌
abbrev pub ◌▸◌ : Done → (Bridge → Done) → Done
(b, done) ▸ f = let r = f b in (r.0, done ++ r.1)
