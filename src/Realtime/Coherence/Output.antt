-- ===== src/Realtime/Coherence/Output.antt =====
-- The player and the receiver keep the bridge coherent.
use dotty_stackchan.Prelude.{
  ◌≡◌, refl, ap, inl, inr, true, Option, none, some, List, [], ◌∷◌, ◌++◌, arith, ltb, if◌then◌else◌,
  Bool-cases, length, length-append,
}
use dotty_stackchan.Realtime.State.{Packet, Entry, Bridge, Settings, World, queue_limit}
use dotty_stackchan.Realtime.Device.{stop_device_audio}
use dotty_stackchan.Realtime.Tools.{Agents}
use dotty_stackchan.Realtime.Events.{
  ServerEvent, session_event, transcription_completed, response_started, output_item_added,
  transcript_delta, audio_delta, audio_done, response_done, error_event, connection_lost,
  handle_server_event, receive_event, prepare_put, complete_put, queue_audio_done, is_receiving,
}
use dotty_stackchan.Realtime.Player.{
  play_output, play_entry, play_packet, end_sound, is_playing, take_entry,
}
use dotty_stackchan.Realtime.Coherence.Parts.{IsCoherent, IsCoherent-interrupt}

IsCoherent-end_sound : (w : World) (b : Bridge) → IsCoherent b → IsCoherent (end_sound w b).0
unfolding end_sound stop_device_audio
IsCoherent-end_sound w b h = ground arith

IsCoherent-play_packet :
    (w : World) (p : Packet) (b : Bridge) → IsCoherent b → IsCoherent (play_packet w p b).0
unfolding play_packet
IsCoherent-play_packet w p b h = ground arith

IsCoherent-play_entry :
    (w : World) (entry : Entry) (b : Bridge) → IsCoherent b → IsCoherent (play_entry w entry b).0
unfolding play_entry
IsCoherent-play_entry w (epoch, none) b h =
    ground (arith, IsCoherent-interrupt w b h, IsCoherent-end_sound w b h)
IsCoherent-play_entry w (epoch, some p) b h =
    ground (arith, IsCoherent-interrupt w b h, IsCoherent-play_packet w p b h)

-- The queue without its first entry.
IsCoherent-taken :
    (entry : Entry) (rest : List Entry) (b : Bridge)
    → b.output_queue ≡ entry ∷ rest
    → IsCoherent b
    → IsCoherent (record b { output_queue = rest })
IsCoherent-taken entry rest b e h = record {
  codec = h.codec;
  receiver = h.receiver;
  route = h.route;
  microphone = h.microphone;
  restored = h.restored;
  room = omega (arith, ap length e, h.room);
  idle = ground (arith, h.idle);
  stale = h.stale;
}

pub IsCoherent-play_output :
    (w : World) (b : Bridge) → IsCoherent b → IsCoherent (play_output w b).0
unfolding play_output
IsCoherent-play_output w b h = by_queue b.output_queue refl
  where
    by_queue :
        (queue : List Entry)
        → b.output_queue ≡ queue
        → IsCoherent (if is_playing b then take_entry w queue b else (b, [])).0
    by_queue [] e = ground (arith, h)
    by_queue (entry ∷ rest) e = ground (
      arith,
      h,
      IsCoherent-play_entry w entry (record b { output_queue = rest })
          (IsCoherent-taken entry rest b e h),
    )

IsCoherent-handle_server_event :
    (c : Settings) (w : World) (a : Agents) (e : ServerEvent) (b : Bridge)
    → b.ws ≡ true
    → IsCoherent b
    → IsCoherent (handle_server_event c w a e b).0
unfolding handle_server_event queue_audio_done
IsCoherent-handle_server_event c w a session_event b on h = h
IsCoherent-handle_server_event c w a (transcription_completed text) b on h = ground (arith, h)
IsCoherent-handle_server_event c w a (response_started id) b on h = ground (arith, h)
IsCoherent-handle_server_event c w a (output_item_added is_message id) b on h = ground (arith, h)
IsCoherent-handle_server_event c w a (transcript_delta delta) b on h = ground (arith, h)
IsCoherent-handle_server_event c w a (audio_delta none) b on h = h
IsCoherent-handle_server_event c w a (audio_delta (some packets)) b on h = ground (arith, h)
IsCoherent-handle_server_event c w a (audio_done flushed) b on h = ground (arith, h)
IsCoherent-handle_server_event c w a (response_done [] flushed) b on h = ground (arith, h)
IsCoherent-handle_server_event c w a (response_done (call ∷ calls) flushed) b on h =
    ground (arith, h)
IsCoherent-handle_server_event c w a error_event b on h = h
IsCoherent-handle_server_event c w a connection_lost b on h = ground (arith, h)

pub IsCoherent-receive_event :
    (c : Settings) (w : World) (a : Agents) (e : ServerEvent) (b : Bridge)
    → IsCoherent b
    → IsCoherent (receive_event c w a e b).0
unfolding receive_event
IsCoherent-receive_event c w a e b h = elim (Bool-cases (is_receiving b)) [
  | inl free ↦ rw free (IsCoherent-handle_server_event c w a e b (ground (arith, h.receiver)) h)
  | inr waits ↦ rw waits h
]

pub IsCoherent-prepare_put : (b : Bridge) → IsCoherent b → IsCoherent (prepare_put b)
unfolding prepare_put
IsCoherent-prepare_put b h = ground arith

pub IsCoherent-complete_put : (b : Bridge) → IsCoherent b → IsCoherent (complete_put b)
unfolding complete_put
IsCoherent-complete_put b h = by_blocked b.blocked refl
  where
    by_blocked :
        (held : Option Entry)
        → b.blocked ≡ held
        → IsCoherent (elim held [
          | none ↦ b
          | some entry ↦
              if ltb (length b.output_queue) queue_limit
              then record b { output_queue = b.output_queue ++ entry ∷ []; blocked = none }
              else b
        ])
    by_blocked none e = h
    by_blocked (some entry) e = ground (arith, h, length-append b.output_queue (entry ∷ []))
