-- ===== src/Realtime/Device.antt =====
-- The device side of `OpenAIRealtimeBridge`: the voice route, playback and the end of a session.
use dotty_stackchan.Prelude.{
  ℕ, ◌+◌, String, Bool, true, false, not, ◌&&◌, ◌||◌, Option, none, some, List, [], ◌∷◌, ◌++◌, ltb,
  if◌then◌else◌, is_blank,
}
use dotty_stackchan.Realtime.State.{
  Effect, session_closed, response_cancelled, item_truncated, tts_stop, codec_reset, queues_cleared,
  status_cleared, Bridge, World, Done,
}

-- `_stop_device_audio`: an exception of the device is ignored.
unfoldable pub stop_device_audio : World → Bridge → Done
stop_device_audio w b = (
  record b { tts_started = false; conn = record b.conn { client_is_speaking = false } },
  (if (b.tts_started || b.conn.client_is_speaking) && w.device_takes then tts_stop ∷ [] else [])
      ++ status_cleared ∷ [],
)

-- `_claim_voice_route`, for a connection that has `clearSpeakStatus`.
unfoldable pub claim_voice_route : World → Bridge → Done
claim_voice_route w b = if b.owns_voice_route then (b, []) else (
  record b {
    owns_voice_route = true;
    conn = record b.conn { close_after_chat = false; client_abort = true; sentence_id = none };
  },
  queues_cleared ∷ (if w.device_takes then tts_stop ∷ [] else []) ++ status_cleared ∷ [],
)

-- `_release_voice_route`
unfoldable pub release_voice_route : Bridge → Bridge
release_voice_route b =
    if b.owns_voice_route
    then record b {
      owns_voice_route = false;
      conn = record b.conn { client_abort = false; close_after_chat = b.local_close_after_chat };
    }
    else b

-- What `_disconnect` leaves once its tasks are cancelled, with all that they were about to put.
unfoldable pub drop_session : Bridge → Done
unfolding release_voice_route
drop_session b = (
  release_voice_route (record b {
    ws = false;
    receiver_done = none;
    player_done = none;
    codec = false;
    session_listen_mode = none;
    active_input = false;
    response_active = false;
    output_queue = [];
    blocked = none;
    unqueued = [];
  }),
  if b.ws then session_closed ∷ [] else [],
)

-- `_disconnect(send_device_stop=stop)`
unfoldable pub disconnect : World → Bool → Bridge → Done
disconnect w stop b =
    let r = if stop then stop_device_audio w b else (b, []) in
    let s = drop_session r.0 in (s.0, r.1 ++ s.1)

abbrev truncation : Option String → ℕ → List Effect
truncation none played = []
truncation (some item) played =
    if not (is_blank item) && ltb 0 played then item_truncated item played ∷ [] else []

-- `interrupt`: an exception of OpenAI is ignored.
unfoldable pub interrupt : World → Bridge → Done
interrupt w b =
    let cancelled =
      if b.ws && w.sends
      then response_cancelled ∷ truncation b.output_item_id b.played_ms
      else [] in
    let s = stop_device_audio w (record b {
      playback_epoch = b.playback_epoch + 1;
      response_active = false;
      response_id = none;
      output_item_id = none;
      played_ms = 0;
      audio_done_epoch = none;
      transcript = "";
      output_queue = [];
    }) in
    (s.0, (if b.codec then codec_reset ∷ [] else []) ++ cancelled ++ s.1)
