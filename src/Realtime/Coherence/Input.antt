-- ===== src/Realtime/Coherence/Input.antt =====
-- The device's messages keep the bridge coherent.
use dotty_stackchan.Prelude.{
  String, ◌≡◌, refl, Bool, true, false, ◌||◌, Option, none, some, [], arith, if◌then◌else◌,
}
use dotty_stackchan.Realtime.State.{Packet, Bridge, Settings, World}
use dotty_stackchan.Realtime.Device.{
  stop_device_audio, claim_voice_route, drop_session, disconnect, interrupt, release_voice_route,
}
use dotty_stackchan.Realtime.Input.{
  mic_open, with_mode, DeviceMessage, opus, listen, abort, other, Answer, handle_device_message,
  route_message, on_listen, ListenState, start, stop, detect, other_state, ensure_connected,
  reconnect, begin_input, open_turn, push_opus, end_input, send_text, send_user_text, and_then,
  open_session, is_ready,
}
use dotty_stackchan.Realtime.Coherence.Parts.{
  IsCoherent, IsCoherent-interrupt, IsCoherent-claim_voice_route, IsCoherent-disconnect,
}

IsCoherent-open_session : (b : Bridge) → b.ws ≡ false → IsCoherent b → IsCoherent (open_session b)
IsCoherent-open_session b off h = ground arith

-- The bridge is coherent, and where the answer is yes, it has a session.
pub record HasSession (r : Answer) : Type 0 where
  pub coherent : IsCoherent r.0.0
  pub live : r.1 ≡ true → r.0.0.ws ≡ true

ws-disconnect : (w : World) (halt : Bool) (b : Bridge) → (disconnect w halt b).0.ws ≡ false
unfolding disconnect drop_session release_voice_route
ws-disconnect w halt b = ground arith

HasSession-reconnect : (w : World) (b : Bridge) → IsCoherent b → HasSession (reconnect w b)
unfolding reconnect
HasSession-reconnect w b h = ground (
  arith,
  IsCoherent-disconnect w false b h,
  IsCoherent-open_session (disconnect w false b).0 (ws-disconnect w false b)
      (IsCoherent-disconnect w false b h),
)

HasSession-ensure_connected :
    (c : Settings) (w : World) (b : Bridge) → IsCoherent b → HasSession (ensure_connected c w b)
unfolding ensure_connected is_ready
HasSession-ensure_connected c w b h = ground (arith, HasSession-reconnect w b h)

IsCoherent-and_then :
    (x : Answer) (f : Bridge → Answer)
    → HasSession x
    → ((b : Bridge) → b.ws ≡ true → IsCoherent b → IsCoherent (f b).0.0)
    → IsCoherent (and_then x f).0.0
IsCoherent-and_then ((b, done), false) f h k = h.coherent
IsCoherent-and_then ((b, done), true) f h k = k b (h.live refl) h.coherent

ws-interrupt : (w : World) (b : Bridge) → (interrupt w b).0.ws ≡ b.ws
unfolding interrupt stop_device_audio
ws-interrupt w b = refl

owns-claim_voice_route :
    (w : World) (b : Bridge) → (claim_voice_route w b).0.owns_voice_route ≡ true
unfolding claim_voice_route
owns-claim_voice_route w b = ground arith

IsCoherent-open_turn :
    (w : World) (b : Bridge) → b.ws ≡ true → IsCoherent b → IsCoherent (open_turn w b).0.0
unfolding open_turn
IsCoherent-open_turn w b on h = ground (arith, mic, IsCoherent-disconnect w false (mic_open k) mic)
  where
    i : Bridge
    i = (if b.response_active || b.tts_started then interrupt w b else (b, [])).0

    i-IsCoherent : IsCoherent i
    i-IsCoherent = ground (arith, IsCoherent-interrupt w b h)

    i-ws : i.ws ≡ true
    i-ws = ground (arith, ws-interrupt w b)

    k : Bridge
    k = (claim_voice_route w i).0

    claimed : IsCoherent k
    claimed = IsCoherent-claim_voice_route w i i-ws i-IsCoherent

    mic : IsCoherent (mic_open k)
    mic = ground (arith, claimed, owns-claim_voice_route w i)

IsCoherent-quiet : (b : Bridge) → IsCoherent b → IsCoherent (record b { active_input = false })
IsCoherent-quiet b h = ground arith

IsCoherent-push_opus :
    (w : World) (pcm : Option Packet) (b : Bridge)
    → IsCoherent b
    → IsCoherent (push_opus w pcm b).0.0
unfolding push_opus
IsCoherent-push_opus w none b h =
    ground (
      arith,
      IsCoherent-disconnect w true (record b { active_input = false }) (IsCoherent-quiet b h),
    )
IsCoherent-push_opus w (some pcm) b h =
    ground (
      arith,
      IsCoherent-disconnect w true (record b { active_input = false }) (IsCoherent-quiet b h),
    )

IsCoherent-end_input : (w : World) (b : Bridge) → IsCoherent b → IsCoherent (end_input w b).0.0
unfolding end_input
IsCoherent-end_input w b h = ground (
  arith,
  IsCoherent-quiet b h,
  IsCoherent-disconnect w true (record b { active_input = false }) (IsCoherent-quiet b h),
)

IsCoherent-send_user_text :
    (w : World) (text : String) (b : Bridge)
    → IsCoherent b
    → IsCoherent (send_user_text w text b).0.0
IsCoherent-send_user_text w text b h = ground (arith, IsCoherent-disconnect w false b h)

IsCoherent-send_text :
    (c : Settings) (w : World) (text : String) (b : Bridge)
    → IsCoherent b
    → IsCoherent (send_text c w text b).0.0
unfolding send_text
IsCoherent-send_text c w text b h = ground (
  arith,
  IsCoherent-and_then (ensure_connected c w b) (send_user_text w text)
      (HasSession-ensure_connected c w b h) (λ k on g. IsCoherent-send_user_text w text k g),
)

IsCoherent-on_listen :
    (c : Settings) (w : World) (state : ListenState) (b : Bridge)
    → IsCoherent b
    → IsCoherent (on_listen c w state b).0.0
unfolding on_listen begin_input
IsCoherent-on_listen c w start b h =
    IsCoherent-and_then (ensure_connected c w b) (open_turn w) (HasSession-ensure_connected c w b h)
      (IsCoherent-open_turn w)
IsCoherent-on_listen c w stop b h = IsCoherent-end_input w b h
IsCoherent-on_listen c w (detect (some text)) b h = IsCoherent-send_text c w text b h
IsCoherent-on_listen c w (detect none) b h = h
IsCoherent-on_listen c w other_state b h = h

IsCoherent-with_mode :
    (mode : Option String) (b : Bridge) → IsCoherent b → IsCoherent (with_mode mode b)
IsCoherent-with_mode none b h = h
IsCoherent-with_mode (some mode) b h = ground (arith, h)

IsCoherent-route_message :
    (c : Settings) (w : World) (m : DeviceMessage) (b : Bridge)
    → IsCoherent b
    → IsCoherent (route_message c w m b).0.0
unfolding route_message
IsCoherent-route_message c w (opus pcm) b h = ground (arith, IsCoherent-push_opus w pcm b h)
IsCoherent-route_message c w (listen mode state) b h =
    IsCoherent-on_listen c w state (with_mode mode b) (IsCoherent-with_mode mode b h)
IsCoherent-route_message c w abort b h = ground (arith, IsCoherent-interrupt w b h)
IsCoherent-route_message c w other b h = h

pub IsCoherent-handle_device_message :
    (c : Settings) (w : World) (m : DeviceMessage) (b : Bridge)
    → IsCoherent b
    → IsCoherent (handle_device_message c w m b).0.0
unfolding handle_device_message
IsCoherent-handle_device_message c w m b h =
    ground (arith, IsCoherent-disconnect w true b h, IsCoherent-route_message c w m b h)
