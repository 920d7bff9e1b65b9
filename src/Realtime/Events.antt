-- ===== src/Realtime/Events.antt =====
-- The events of the session in `OpenAIRealtimeBridge`: `_receive_events`, `_handle_server_event` and
-- `_queue_audio_done`. A handler that puts on the full queue waits, and the next event with it.
use dotty_stackchan.Prelude.{
  ℕ, String, Bool, true, false, not, ◌&&◌, Option, none, some, List, [], ◌∷◌, ◌++◌, map, ltb,
  nat_eq, if◌then◌else◌, length, is_empty, is_blank, strip, append,
}
use dotty_stackchan.Realtime.State.{
  Packet, packet, audio_end, stt, tts_start, Bridge, Settings, World, Done, queue_limit,
}
use dotty_stackchan.Realtime.Tools.{ToolCall, Agents, complete_tool_calls}

-- The events with what the handler reads of them. Sound is `none` where it is no base64, and holds
-- otherwise the packets that the codec gives for it.
pub data ServerEvent : Type 0 where
  session_event : ServerEvent
  transcription_completed : String → ServerEvent
  response_started : Option String → ServerEvent
  output_item_added : Bool → Option String → ServerEvent
  transcript_delta : String → ServerEvent
  audio_delta : Option (List Packet) → ServerEvent
  audio_done : List Packet → ServerEvent
  response_done : List ToolCall → List Packet → ServerEvent
  error_event : ServerEvent
  connection_lost : ServerEvent

abbrev pub is_current : Option ℕ → ℕ → Bool
is_current none epoch = false
is_current (some n) epoch = nat_eq n epoch

-- `_queue_audio_done`, where the codec flushes the given packets.
unfoldable pub queue_audio_done : List Packet → Bridge → Bridge
queue_audio_done flushed b =
    if is_current b.audio_done_epoch b.playback_epoch
    then b
    else record b { unqueued = (if b.codec then map packet flushed else []) ++ audio_end ∷ [] }

-- `_receive_events` ends.
abbrev pub receiver_ended : Bridge → Bridge
receiver_ended b = record b { receiver_done = some true; active_input = false }

abbrev pub ends_unless : Bool → Done → Done
ends_unless true r = r
ends_unless false (b, done) = (receiver_ended b, done)

-- `_handle_server_event`
unfoldable pub handle_server_event : Settings → World → Agents → ServerEvent → Bridge → Done
handle_server_event c w a session_event b = (b, [])
handle_server_event c w a (transcription_completed text) b =
    if is_blank (strip text)
    then (b, [])
    else if w.device_takes
    then (b, stt (strip text) ∷ tts_start ∷ [])
    else (receiver_ended b, [])
handle_server_event c w a (response_started id) b = (
  record b { response_active = true; response_id = id; transcript = ""; audio_done_epoch = none },
  [],
)
handle_server_event c w a (output_item_added is_message id) b =
    (if is_message then record b { output_item_id = id } else b, [])
handle_server_event c w a (transcript_delta delta) b =
    (record b { transcript = append b.transcript delta }, [])
handle_server_event c w a (audio_delta none) b = (b, [])
handle_server_event c w a (audio_delta (some packets)) b =
    (if b.codec then record b { unqueued = map packet packets } else b, [])
handle_server_event c w a (audio_done flushed) b = (queue_audio_done flushed b, [])
handle_server_event c w a (response_done [] flushed) b =
    let b' = record b { response_active = false } in
    (
      if b.tts_started && not (is_current b.audio_done_epoch b.playback_epoch)
          then queue_audio_done flushed b'
          else b',
      [],
    )
handle_server_event c w a (response_done (call ∷ calls) flushed) b =
    let r = complete_tool_calls c w a (call ∷ calls) in
    ends_unless r.1 (record b { response_active = false }, r.0)
handle_server_event c w a error_event b = (b, [])
handle_server_event c w a connection_lost b = (receiver_ended b, [])

-- Whether the receiver waits for an event, and not for room in the queue.
abbrev pub is_receiving : Bridge → Bool
is_receiving b =
    elim b.receiver_done [ none ↦ false | some done ↦ not done ]
    && (elim b.blocked [ none ↦ true | some _ ↦ false ])
    && is_empty b.unqueued

-- An event that the receiver takes.
unfoldable pub receive_event : Settings → World → Agents → ServerEvent → Bridge → Done
receive_event c w a e b = if is_receiving b then handle_server_event c w a e b else (b, [])

-- The next `put` of the receiver: its entry has the epoch of this moment.
unfoldable pub prepare_put : Bridge → Bridge
prepare_put b = elim b.blocked [
  | some entry ↦ b
  | none ↦ elim b.unqueued [
    | [] ↦ b
    | packet p ∷ rest ↦ record b { blocked = some (b.playback_epoch, some p); unqueued = rest }
    | audio_end ∷ rest ↦ record b {
      blocked = some (b.playback_epoch, none);
      unqueued = rest;
      audio_done_epoch = some b.playback_epoch;
    }
  ]
]

-- The `put` goes through where the queue has room.
unfoldable pub complete_put : Bridge → Bridge
complete_put b = elim b.blocked [
  | none ↦ b
  | some entry ↦
      if ltb (length b.output_queue) queue_limit
      then record b { output_queue = b.output_queue ++ entry ∷ []; blocked = none }
      else b
]
