-- ===== src/Realtime/Barge/Output.antt =====
-- The player and the receiver play only what is new.
use dotty_stackchan.Prelude.{
  ℕ, inl, inr, false, Option, none, some, List, [], ◌∷◌, ◌++◌, map, arith, ltb, if◌then◌else◌,
  length,
}
use dotty_stackchan.Realtime.State.{
  Packet, Pending, packet, audio_end, Entry, Bridge, Settings, World, response_created, queue_limit,
}
use dotty_stackchan.Realtime.Tools.{ToolCall, Agents, answer_calls, complete_tool_calls}
use dotty_stackchan.Realtime.Events.{
  ServerEvent, session_event, transcription_completed, response_started, output_item_added,
  transcript_delta, audio_delta, audio_done, response_done, error_event, connection_lost,
  handle_server_event, prepare_put, complete_put, queue_audio_done,
}
use dotty_stackchan.Realtime.Player.{
  play_output, play_entry, play_packet, end_sound, is_playing, take_entry,
}
use dotty_stackchan.Realtime.System.{serves}
use dotty_stackchan.Realtime.Barge.Past.{
  IsLater, AreLater, AreNewPending, AreNewPackets, IsLaterBlocked, IsPast, BringsNew, PlaysNew,
  IsFresh, quiet, PlaysNew-append, IsFresh-stop_device_audio, IsFresh-interrupt,
}

module _ (IsNew : Packet → Type 0) where
  IsFresh-end_sound :
      (n : ℕ) (w : World) (b : Bridge) → IsPast IsNew n b → IsFresh IsNew n (end_sound w b)
  unfolding end_sound
  IsFresh-end_sound n w b h =
      let k = IsFresh-stop_device_audio IsNew n w b h in ground (arith, k.past, k.played)

  IsFresh-play_packet :
      (n : ℕ) (w : World) (p : Packet) (b : Bridge)
      → IsNew p
      → IsPast IsNew n b
      → IsFresh IsNew n (play_packet w p b)
  unfolding play_packet
  IsFresh-play_packet n w p b new h = ground (arith, h)

  IsFresh-play_entry :
      (n : ℕ) (w : World) (entry : Entry) (b : Bridge)
      → IsLater IsNew n entry
      → IsPast IsNew n b
      → IsFresh IsNew n (play_entry w entry b)
  unfolding play_entry
  IsFresh-play_entry n w (epoch, none) b later h =
      ground (arith, IsFresh-interrupt IsNew n w b h, IsFresh-end_sound n w b h)
  IsFresh-play_entry n w (epoch, some p) b (inl old) h =
      ground (arith, IsFresh-interrupt IsNew n w b h)
  IsFresh-play_entry n w (epoch, some p) b (inr new) h =
      ground (arith, IsFresh-interrupt IsNew n w b h, IsFresh-play_packet n w p b new h)

  pub IsFresh-play_output :
      (n : ℕ) (w : World) (b : Bridge) → IsPast IsNew n b → IsFresh IsNew n (play_output w b)
  unfolding play_output
  IsFresh-play_output n w b h = by_queue b.output_queue h.queue
    where
      by_queue :
          (queue : List Entry)
          → AreLater IsNew n queue
          → IsFresh IsNew n (if is_playing b then take_entry w queue b else (b, []))
      by_queue [] later = ground (arith, h)
      by_queue (entry ∷ rest) (first, later) = ground (
        arith,
        h,
        IsFresh-play_entry n w entry (record b { output_queue = rest }) first
            (record { epoch = h.epoch; queue = later; held = h.held; pending = h.pending }),
      )

  AreNewPending-map :
      (ps : List Packet) (rest : List Pending)
      → AreNewPackets IsNew ps
      → AreNewPending IsNew rest
      → AreNewPending IsNew (map packet ps ++ rest)
  AreNewPending-map [] rest h k = k
  AreNewPending-map (p ∷ ps) rest h k = (h.0, AreNewPending-map ps rest h.1 k)

  IsPast-queue_audio_done :
      (n : ℕ) (flushed : List Packet) (b : Bridge)
      → AreNewPackets IsNew flushed
      → IsPast IsNew n b
      → IsPast IsNew n (queue_audio_done flushed b)
  unfolding queue_audio_done
  IsPast-queue_audio_done n flushed b new h =
      ground (arith, h, AreNewPending-map flushed (audio_end ∷ []) new tt)

  PlaysNew-answer_calls :
      (c : Settings) (w : World) (a : Agents) (calls : List ToolCall)
      → PlaysNew IsNew (answer_calls c w a calls).0
  unfolding answer_calls
  PlaysNew-answer_calls c w a [] = tt
  PlaysNew-answer_calls c w a (call ∷ calls) = ground (arith, PlaysNew-answer_calls c w a calls)

  PlaysNew-complete_tool_calls :
      (c : Settings) (w : World) (a : Agents) (calls : List ToolCall)
      → PlaysNew IsNew (complete_tool_calls c w a calls).0
  unfolding complete_tool_calls
  PlaysNew-complete_tool_calls c w a calls = ground (
    arith,
    PlaysNew-answer_calls c w a calls,
    PlaysNew-append IsNew (answer_calls c w a calls).0 (response_created ∷ [])
        (PlaysNew-answer_calls c w a calls) tt,
  )

  AreNewPending-packets :
      (ps : List Packet) → AreNewPackets IsNew ps → AreNewPending IsNew (map packet ps)
  AreNewPending-packets [] h = tt
  AreNewPending-packets (p ∷ ps) h = (h.0, AreNewPending-packets ps h.1)

  pub IsFresh-handle_server_event :
      (c : Settings) (n : ℕ) (w : World) (a : Agents) (e : ServerEvent) (b : Bridge)
      → BringsNew IsNew (serves e)
      → IsPast IsNew n b
      → IsFresh IsNew n (handle_server_event c w a e b)
  unfolding handle_server_event
  IsFresh-handle_server_event c n w a session_event b new h = quiet IsNew h
  IsFresh-handle_server_event c n w a (transcription_completed text) b new h = ground (arith, h)
  IsFresh-handle_server_event c n w a (response_started id) b new h = ground (arith, h)
  IsFresh-handle_server_event c n w a (output_item_added is_message id) b new h = ground (arith, h)
  IsFresh-handle_server_event c n w a (transcript_delta delta) b new h = ground (arith, h)
  IsFresh-handle_server_event c n w a (audio_delta none) b new h = quiet IsNew h
  IsFresh-handle_server_event c n w a (audio_delta (some ps)) b new h =
      ground (arith, h, AreNewPending-packets ps new)
  IsFresh-handle_server_event c n w a (audio_done ps) b new h =
      quiet IsNew (IsPast-queue_audio_done n ps b new h)
  IsFresh-handle_server_event c n w a (response_done [] ps) b new h = ground (
    arith,
    h,
    IsPast-queue_audio_done n ps (record b { response_active = false }) new (ground (arith, h)),
  )
  IsFresh-handle_server_event c n w a (response_done (call ∷ calls) ps) b new h =
      ground (arith, h, PlaysNew-complete_tool_calls c w a (call ∷ calls))
  IsFresh-handle_server_event c n w a error_event b new h = quiet IsNew h
  IsFresh-handle_server_event c n w a connection_lost b new h = ground (arith, h)

  pub IsPast-prepare_put : (n : ℕ) (b : Bridge) → IsPast IsNew n b → IsPast IsNew n (prepare_put b)
  unfolding prepare_put
  IsPast-prepare_put n b h = ground (arith, h)

  AreLater-append :
      (n : ℕ) (entries : List Entry) (entry : Entry)
      → AreLater IsNew n entries
      → IsLater IsNew n entry
      → AreLater IsNew n (entries ++ entry ∷ [])
  AreLater-append n [] entry h k = (k, tt)
  AreLater-append n (e ∷ entries) entry h k = (h.0, AreLater-append n entries entry h.1 k)

  pub IsPast-complete_put :
      (n : ℕ) (b : Bridge) → IsPast IsNew n b → IsPast IsNew n (complete_put b)
  unfolding complete_put
  IsPast-complete_put n b h = by_blocked b.blocked h.held
    where
      by_blocked :
          (held : Option Entry)
          → IsLaterBlocked IsNew n held
          → IsPast IsNew n (elim held [
            | none ↦ b
            | some entry ↦
                if ltb (length b.output_queue) queue_limit
                then record b { output_queue = b.output_queue ++ entry ∷ []; blocked = none }
                else b
          ])
      by_blocked none l = h
      by_blocked (some entry) l =
          ground (arith, h, AreLater-append n b.output_queue entry h.queue l)
