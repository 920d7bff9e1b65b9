-- ===== src/Realtime/Player.antt =====
-- One entry of the queue in `OpenAIRealtimeBridge._play_output`. The checks of an entry, what is sent
-- before its first packet and the packet itself are one step here. The code has awaits between them
-- (custom-providers/openai_realtime/bridge.py:774-800), at which another handler may run: an entry that passed its checks
-- before an interruption or a change to kid mode is still sent there.
use dotty_stackchan.Prelude.{
  ◌+◌, Bool, true, false, not, ◌||◌, none, some, List, [], ◌∷◌, ◌++◌, nat_eq, if◌then◌else◌, strip,
}
use dotty_stackchan.Realtime.State.{
  Packet, Entry, face_neutral, sentence_start, frame_played, Bridge, World, Done, frame_ms,
}
use dotty_stackchan.Realtime.Device.{stop_device_audio, interrupt}

abbrev pub silence : World → Bridge → Done
silence w b = let r = interrupt w b in (record r.0 { active_input = false }, r.1)

-- A packet of the current epoch, while the route is open, as one step. The device that takes nothing ends the
-- player.
unfoldable pub play_packet : World → Packet → Bridge → Done
play_packet w p b =
    let b' = record b {
      tts_started = true;
      conn = record b.conn { client_is_speaking = b.conn.client_is_speaking || not b.tts_started };
      played_ms = b.played_ms + frame_ms;
    } in
    if not w.device_takes then (record b { player_done = some true }, []) else (
      b',
      (if b.tts_started then [] else face_neutral ∷ sentence_start (strip b.transcript) ∷ [])
          ++ frame_played p ∷ [],
    )

unfoldable pub end_sound : World → Bridge → Done
end_sound w b =
    let r = stop_device_audio w b in (record r.0 { transcript = ""; audio_done_epoch = none }, r.1)

unfoldable pub play_entry : World → Entry → Bridge → Done
play_entry w (epoch, sound) b =
    if not (nat_eq epoch b.playback_epoch)
    then (b, [])
    else if w.kid_mode || not w.is_marin
    then silence w b
    else elim sound [ none ↦ end_sound w b | some p ↦ play_packet w p b ]

abbrev pub is_playing : Bridge → Bool
is_playing b = elim b.player_done [ none ↦ false | some done ↦ not done ]

abbrev pub take_entry : World → List Entry → Bridge → Done
take_entry w [] b = (b, [])
take_entry w (entry ∷ rest) b = play_entry w entry (record b { output_queue = rest })

-- A turn of the loop, where there is an entry.
unfoldable pub play_output : World → Bridge → Done
play_output w b = if is_playing b then take_entry w b.output_queue b else (b, [])
