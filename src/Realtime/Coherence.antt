-- ===== src/Realtime/Coherence.antt =====
-- What is always true of `OpenAIRealtimeBridge`: its session, its voice route and its queue.
pub mod Parts
pub mod Input
pub mod Output
use dotty_stackchan.Prelude.{true, List, [], ◌∷◌, arith}
use dotty_stackchan.Realtime.State.{Conn, Bridge, new_bridge, Settings, World}
use dotty_stackchan.Realtime.Input.{refresh_requested_profile, close}
use dotty_stackchan.Realtime.Tools.{Agents}
use dotty_stackchan.Realtime.System.{
  Action, messages, serves, prepares, completes, plays, refreshes, closes, step, run_steps,
}
use dotty_stackchan.Realtime.Coherence.Parts.{
  IsCoherent, IsCoherent-new_bridge, IsCoherent-disconnect,
}
use dotty_stackchan.Realtime.Coherence.Input.{IsCoherent-handle_device_message}
use dotty_stackchan.Realtime.Coherence.Output.{
  IsCoherent-play_output, IsCoherent-receive_event, IsCoherent-prepare_put, IsCoherent-complete_put,
}

IsCoherent-step :
    (c : Settings) (a : Agents) (w : World) (x : Action) (b : Bridge)
    → IsCoherent b
    → IsCoherent (step c a w x b).0
unfolding step refresh_requested_profile close
IsCoherent-step c a w (messages m) b h = IsCoherent-handle_device_message c w m b h
IsCoherent-step c a w (serves e) b h = IsCoherent-receive_event c w a e b h
IsCoherent-step c a w prepares b h = IsCoherent-prepare_put b h
IsCoherent-step c a w completes b h = IsCoherent-complete_put b h
IsCoherent-step c a w plays b h = IsCoherent-play_output w b h
IsCoherent-step c a w refreshes b h = ground (arith, h, IsCoherent-disconnect w true b h)
IsCoherent-step c a w closes b h =
    IsCoherent-disconnect w true (record b { closed = true }) (ground (arith, h))

IsCoherent-run_from :
    (c : Settings) (a : Agents) (xs : List (World × Action)) (b : Bridge)
    → IsCoherent b
    → IsCoherent (run_steps c a xs b).0
unfolding run_steps
IsCoherent-run_from c a [] b h = h
IsCoherent-run_from c a ((w, x) ∷ xs) b h =
    IsCoherent-run_from c a xs (step c a w x b).0 (IsCoherent-step c a w x b h)

-- Whatever the tasks of a bridge do, in whatever order, the microphone is open only while the bridge
-- owns the voice route, which it owns only with a session; without the route the connection closes
-- after a chat as it was configured to; and the queue never exceeds its limit.
pub run_steps-IsCoherent :
    (c : Settings) (a : Agents) (xs : List (World × Action)) (conn : Conn)
    → IsCoherent (run_steps c a xs (new_bridge conn)).0
run_steps-IsCoherent c a xs conn =
    IsCoherent-run_from c a xs (new_bridge conn) (IsCoherent-new_bridge conn)
