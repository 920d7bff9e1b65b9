-- ===== src/Realtime/System.antt =====
-- The tasks of one bridge at work: the device's messages, the receiver, the player, and the dashboard.
-- A handler runs to its end in one step, but for what it puts on the queue.
use dotty_stackchan.Prelude.{List, [], ◌∷◌, ◌++◌}
use dotty_stackchan.Realtime.State.{Bridge, Settings, World, Done}
use dotty_stackchan.Realtime.Input.{
  DeviceMessage, handle_device_message, refresh_requested_profile, close,
}
use dotty_stackchan.Realtime.Tools.{Agents}
use dotty_stackchan.Realtime.Events.{ServerEvent, receive_event, prepare_put, complete_put}
use dotty_stackchan.Realtime.Player.{play_output}

pub data Action : Type 0 where
  messages : DeviceMessage → Action
  serves : ServerEvent → Action
  prepares completes plays refreshes closes : Action

unfoldable pub step : Settings → Agents → World → Action → Bridge → Done
step c a w (messages m) b = (handle_device_message c w m b).0
step c a w (serves e) b = receive_event c w a e b
step c a w prepares b = (prepare_put b, [])
step c a w completes b = (complete_put b, [])
step c a w plays b = play_output w b
step c a w refreshes b = refresh_requested_profile w b
step c a w closes b = close w b

-- The bridge after steps, each in its world, and what was done.
unfoldable pub run_steps : Settings → Agents → List (World × Action) → Bridge → Done
run_steps c a [] b = (b, [])
run_steps c a ((w, x) ∷ xs) b =
    let r = step c a w x b in let s = run_steps c a xs r.0 in (s.0, r.1 ++ s.1)
