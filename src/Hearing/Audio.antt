-- ===== src/Hearing/Audio.antt =====
-- The sound of the microphone in receiveAudioHandle.py: `handleAudioMessage` and the farewell after a
-- silence.
use dotty_stackchan.Prelude.{
  ℕ, ◌+◌, String, Bool, true, false, not, ◌&&◌, [], ◌∷◌, ◌==◌, ltb, if◌then◌else◌, is_blank,
}
use dotty_stackchan.Hearing.Connection.{
  Connection, attempt, closing, connection_closed, Surroundings, Did, ◌▹◌,
}
use dotty_stackchan.Hearing.Turn.{handle_abort, start_to_chat}

-- The configured `end_prompt`: whether it is enabled, and its text.
pub record Farewell : Type 0 where
  pub close_after_ms : ℕ
  pub enabled : Bool
  pub prompt : String

abbrev farewell_text : Farewell → String
farewell_text f =
    if is_blank f.prompt
    then "Time flies when we're having fun! Let's chat again next time!"
    else f.prompt

-- `no_voice_close_connect` at the given time.
unfoldable pub no_voice_close_connect : Surroundings → Farewell → ℕ → Bool → Connection → Did
no_voice_close_connect w f now have_voice c =
    let closing_down = record c { close_after_chat = true; client_abort = false } in
    if have_voice
    then (record c { last_activity_time = now }, [])
    else if ltb 0 c.last_activity_time
        && not c.close_after_chat
        && ltb (c.last_activity_time + f.close_after_ms) now
    then (if f.enabled
        then start_to_chat w (farewell_text f) closing_down
        else (closing_down, attempt w closing (connection_closed ∷ [])))
    else (c, [])

abbrev cut_in : Surroundings → Bool → Connection → Did
cut_in w have_voice c =
    if have_voice && c.client_is_speaking && not (c.client_listen_mode == "manual")
    then handle_abort w c
    else (c, [])

-- `handleAudioMessage`: what it does, and whether the sound goes on to the recogniser.
unfoldable pub handle_audio_message :
    Surroundings → Farewell → ℕ → Bool → Bool → Connection → Did × Bool
handle_audio_message w f now is_exiting have_voice c =
    if is_exiting
    then ((c, []), false)
    else if c.just_woken_up
    then ((record c { resume_pending = true }, []), false)
    else (cut_in w have_voice c ▹ no_voice_close_connect w f now have_voice, true)

-- `resume_vad_detection`, once its sleep is over.
abbrev pub resume_vad_detection : Connection → Connection
resume_vad_detection c = record c { just_woken_up = false; resume_pending = false }
