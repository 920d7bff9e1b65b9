-- ===== src/Realtime/Interruption.antt =====
-- An interruption of a bridge at work.
use dotty_stackchan.Prelude.{List}
use dotty_stackchan.Realtime.State.{Packet, Conn, new_bridge, Settings, World}
use dotty_stackchan.Realtime.Device.{interrupt}
use dotty_stackchan.Realtime.Tools.{Agents}
use dotty_stackchan.Realtime.System.{Action, run_steps}
use dotty_stackchan.Realtime.Barge.Past.{AreNewPending, AllBringNew, PlaysNew}
use dotty_stackchan.Realtime.Barge.{run_steps-interrupt}
use dotty_stackchan.Realtime.Coherence.{run_steps-IsCoherent}

-- Whatever a bridge did, none of the frames that stood in its queue at an interruption, or that the
-- receiver waited to put, is played after it, whatever steps follow: what is played then are the
-- packets of the delta at hand that the receiver had still to put, and packets of events received
-- later, the late deltas of the cancelled response among these. Each handler is one step, the player's
-- checks and its frame too, so that this is about the frames which the player checks after the
-- interruption.
pub interrupt-PlaysNew :
    (IsNew : Packet → Type 0) (c : Settings) (a : Agents) (conn : Conn)
    (before : List (World × Action)) (w : World) (after : List (World × Action))
    → AreNewPending IsNew (run_steps c a before (new_bridge conn)).0.unqueued
    → AllBringNew IsNew after
    → PlaysNew IsNew
        (run_steps c a after (interrupt w (run_steps c a before (new_bridge conn)).0).0).1
interrupt-PlaysNew IsNew c a conn before w after left new =
    run_steps-interrupt IsNew c a w after (run_steps c a before (new_bridge conn)).0 left
      (run_steps-IsCoherent c a before conn).stale new
