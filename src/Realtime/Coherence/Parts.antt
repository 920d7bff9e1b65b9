-- ===== src/Realtime/Coherence/Parts.antt =====
-- What is always true of `OpenAIRealtimeBridge`, and that its parts on the device side keep it.
use dotty_stackchan.Prelude.{
  ◌≤◌, ◌≡◌, Bool, true, false, not, ◌&&◌, ◌||◌, Option, none, some, arith, length, is_empty,
}
use dotty_stackchan.Realtime.State.{Conn, Bridge, new_bridge, World, queue_limit}
use dotty_stackchan.Realtime.Device.{
  stop_device_audio, claim_voice_route, drop_session, disconnect, interrupt, release_voice_route,
}
use dotty_stackchan.Realtime.Barge.{IsOldBlocked}

abbrev pub is_some {ℓ} : {A : Type ℓ} → Option A → Bool
is_some none = false
is_some (some x) = true

-- There is a codec and a receiver exactly with a session. The microphone is open only while the
-- bridge owns the voice route, which it owns only with a session; otherwise the connection closes
-- after a chat as it was configured to. The queue holds at most its limit, nothing waits without a
-- session, and an entry that waits is not of a later epoch.
pub record IsCoherent (b : Bridge) : Type 0 where
  pub codec : b.codec ≡ b.ws
  pub receiver : is_some b.receiver_done ≡ b.ws
  pub route : (not b.owns_voice_route || b.ws) ≡ true
  pub microphone : (not b.active_input || b.owns_voice_route) ≡ true
  pub restored : b.owns_voice_route ≡ false → b.conn.close_after_chat ≡ b.local_close_after_chat
  pub room : length b.output_queue ≤ queue_limit
  pub idle :
      (b.ws || is_empty b.output_queue && not (is_some b.blocked) && is_empty b.unqueued) ≡ true
  pub stale : IsOldBlocked b.playback_epoch b.blocked

pub IsCoherent-new_bridge : (conn : Conn) → IsCoherent (new_bridge conn)
IsCoherent-new_bridge conn = ground arith

pub IsCoherent-stop_device_audio :
    (w : World) (b : Bridge) → IsCoherent b → IsCoherent (stop_device_audio w b).0
unfolding stop_device_audio
IsCoherent-stop_device_audio w b h = ground arith

pub IsCoherent-drop_session : (b : Bridge) → IsCoherent b → IsCoherent (drop_session b).0
unfolding drop_session release_voice_route
IsCoherent-drop_session b h = ground arith

pub IsCoherent-interrupt : (w : World) (b : Bridge) → IsCoherent b → IsCoherent (interrupt w b).0
unfolding interrupt stop_device_audio
IsCoherent-interrupt w b h = ground arith

pub IsCoherent-claim_voice_route :
    (w : World) (b : Bridge) → b.ws ≡ true → IsCoherent b → IsCoherent (claim_voice_route w b).0
unfolding claim_voice_route
IsCoherent-claim_voice_route w b on h = ground arith

pub IsCoherent-disconnect :
    (w : World) (halt : Bool) (b : Bridge) → IsCoherent b → IsCoherent (disconnect w halt b).0
unfolding disconnect
IsCoherent-disconnect w true b h =
    IsCoherent-drop_session (stop_device_audio w b).0 (IsCoherent-stop_device_audio w b h)
IsCoherent-disconnect w false b h = IsCoherent-drop_session b h
