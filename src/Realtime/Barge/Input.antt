-- ===== src/Realtime/Barge/Input.antt =====
-- The device's messages bring no old sound back.
use dotty_stackchan.Prelude.{
  if_cases, ℕ, String, Bool, true, false, ◌||◌, Option, none, some, List, [], ◌∷◌, ◌++◌, arith,
  if◌then◌else◌,
}
use dotty_stackchan.Realtime.State.{
  Packet, Effect, Bridge, Settings, World, Done, session_opened, audio_states_reset, input_cleared,
}
use dotty_stackchan.Realtime.Device.{claim_voice_route, disconnect, interrupt}
use dotty_stackchan.Realtime.Input.{
  mic_open, with_mode, DeviceMessage, opus, listen, abort, other, Answer, handle_device_message,
  route_message, on_listen, ListenState, start, stop, detect, other_state, ensure_connected,
  reconnect, begin_input, open_turn, push_opus, end_input, send_text, send_user_text, and_then,
}
use dotty_stackchan.Realtime.Barge.Past.{
  IsPast, PlaysNew, IsFresh, quiet, PlaysNew-append, IsFresh-disconnect, IsFresh-interrupt,
  IsFresh-claim_voice_route,
}

module _ (IsNew : Packet → Type 0) where
  pub record IsFreshAnswer (n : ℕ) (r : Answer) : Type 0 where
    pub done : IsFresh IsNew n r.0

  still :
      {n : ℕ} {b : Bridge} {consumed : Bool}
      → IsPast IsNew n b
      → IsFreshAnswer n ((b, []), consumed)
  still h = record { done = quiet IsNew h }

  IsFresh-reconnect :
      (n : ℕ) (w : World) (b : Bridge) → IsPast IsNew n b → IsFreshAnswer n (reconnect w b)
  unfolding reconnect
  IsFresh-reconnect n w b h =
      let k = IsFresh-disconnect IsNew n w false b h.epoch in
      if_cases (IsFreshAnswer n) w.connects _ _
        (λ _. record {
          done = record {
            past = ground (arith, k.past);
            played =
                PlaysNew-append IsNew (disconnect w false b).1 (session_opened ∷ []) k.played tt;
          };
        })
        (λ _. record { done = k })

  IsFresh-ensure_connected :
      (c : Settings) (n : ℕ) (w : World) (b : Bridge)
      → IsPast IsNew n b
      → IsFreshAnswer n (ensure_connected c w b)
  unfolding ensure_connected
  IsFresh-ensure_connected c n w b h = ground (arith, IsFresh-reconnect n w b h)

  IsFresh-and_then :
      (n : ℕ) (x : Answer) (f : Bridge → Answer)
      → IsFreshAnswer n x
      → ((b : Bridge) → IsPast IsNew n b → IsFreshAnswer n (f b))
      → IsFreshAnswer n (and_then x f)
  IsFresh-and_then n ((b, done), false) f h k = h
  IsFresh-and_then n ((b, done), true) f h k =
      let l = (k b h.done.past).done in
      record {
        done = record {
          past = l.past;
          played = PlaysNew-append IsNew done (f b).0.1 h.done.played l.played;
        };
      }

  IsFresh-open_turn :
      (n : ℕ) (w : World) (b : Bridge) → IsPast IsNew n b → IsFreshAnswer n (open_turn w b)
  unfolding open_turn
  IsFresh-open_turn n w b h = ground (
    arith,
    claimed,
    left,
    PlaysNew-append IsNew before (input_cleared ∷ []) before-PlaysNew tt,
    PlaysNew-append IsNew before (disconnect w false (mic_open k.0)).1 before-PlaysNew left.played,
  )
    where
      i : Done
      i = if b.response_active || b.tts_started then interrupt w b else (b, [])

      i-IsFresh : IsFresh IsNew n i
      i-IsFresh = ground (arith, IsFresh-interrupt IsNew n w b h)

      k : Done
      k = claim_voice_route w i.0

      claimed : IsFresh IsNew n k
      claimed = IsFresh-claim_voice_route IsNew n w i.0 i-IsFresh.past

      before : List Effect
      before = i.1 ++ k.1 ++ audio_states_reset ∷ []

      before-PlaysNew : PlaysNew IsNew before
      before-PlaysNew =
          PlaysNew-append IsNew (i.1 ++ k.1) (audio_states_reset ∷ [])
            (PlaysNew-append IsNew i.1 k.1 i-IsFresh.played claimed.played) tt

      left : IsFresh IsNew n (disconnect w false (mic_open k.0))
      left = IsFresh-disconnect IsNew n w false (mic_open k.0) claimed.past.epoch

  IsFresh-push_opus :
      (n : ℕ) (w : World) (pcm : Option Packet) (b : Bridge)
      → IsPast IsNew n b
      → IsFreshAnswer n (push_opus w pcm b)
  unfolding push_opus
  IsFresh-push_opus n w none b h =
      ground (arith, IsFresh-disconnect IsNew n w true (record b { active_input = false }) h.epoch)
  IsFresh-push_opus n w (some pcm) b h =
      ground (arith, IsFresh-disconnect IsNew n w true (record b { active_input = false }) h.epoch)

  IsFresh-end_input :
      (n : ℕ) (w : World) (b : Bridge) → IsPast IsNew n b → IsFreshAnswer n (end_input w b)
  unfolding end_input
  IsFresh-end_input n w b h =
      ground (arith, IsFresh-disconnect IsNew n w true (record b { active_input = false }) h.epoch)

  IsFresh-send_user_text :
      (n : ℕ) (w : World) (text : String) (b : Bridge)
      → IsPast IsNew n b
      → IsFreshAnswer n (send_user_text w text b)
  IsFresh-send_user_text n w text b h = ground (arith, IsFresh-disconnect IsNew n w false b h.epoch)

  IsFresh-send_text :
      (c : Settings) (n : ℕ) (w : World) (text : String) (b : Bridge)
      → IsPast IsNew n b
      → IsFreshAnswer n (send_text c w text b)
  unfolding send_text
  IsFresh-send_text c n w text b h = ground (
    arith,
    IsFresh-and_then n (ensure_connected c w b) (send_user_text w text)
        (IsFresh-ensure_connected c n w b h) (IsFresh-send_user_text n w text),
  )

  IsFresh-on_listen :
      (c : Settings) (n : ℕ) (w : World) (state : ListenState) (b : Bridge)
      → IsPast IsNew n b
      → IsFreshAnswer n (on_listen c w state b)
  unfolding on_listen begin_input
  IsFresh-on_listen c n w start b h =
      IsFresh-and_then n (ensure_connected c w b) (open_turn w) (IsFresh-ensure_connected c n w b h)
        (IsFresh-open_turn n w)
  IsFresh-on_listen c n w stop b h = IsFresh-end_input n w b h
  IsFresh-on_listen c n w (detect (some text)) b h = IsFresh-send_text c n w text b h
  IsFresh-on_listen c n w (detect none) b h = still h
  IsFresh-on_listen c n w other_state b h = still h

  IsPast-with_mode :
      (n : ℕ) (mode : Option String) (b : Bridge)
      → IsPast IsNew n b
      → IsPast IsNew n (with_mode mode b)
  IsPast-with_mode n none b h = h
  IsPast-with_mode n (some mode) b h = ground (arith, h)

  IsFresh-route_message :
      (c : Settings) (n : ℕ) (w : World) (m : DeviceMessage) (b : Bridge)
      → IsPast IsNew n b
      → IsFreshAnswer n (route_message c w m b)
  unfolding route_message
  IsFresh-route_message c n w (opus pcm) b h = ground (arith, IsFresh-push_opus n w pcm b h)
  IsFresh-route_message c n w (listen mode state) b h =
      IsFresh-on_listen c n w state (with_mode mode b) (IsPast-with_mode n mode b h)
  IsFresh-route_message c n w abort b h = ground (arith, IsFresh-interrupt IsNew n w b h)
  IsFresh-route_message c n w other b h = still h

  pub IsFresh-handle_device_message :
      (c : Settings) (n : ℕ) (w : World) (m : DeviceMessage) (b : Bridge)
      → IsPast IsNew n b
      → IsFreshAnswer n (handle_device_message c w m b)
  unfolding handle_device_message
  IsFresh-handle_device_message c n w m b h =
      ground (arith, IsFresh-disconnect IsNew n w true b h.epoch, IsFresh-route_message c n w m b h)
