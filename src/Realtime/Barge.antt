-- ===== src/Realtime/Barge.antt =====
-- That an interrupted reply is not heard on: what is played after `interrupt`.
pub mod Past
pub mod Input
pub mod Output
use dotty_stackchan.Prelude.{ℕ, suc, ◌≤◌, inl, true, Option, none, some, List, [], ◌∷◌, arith}
use dotty_stackchan.Realtime.State.{Packet, Entry, Bridge, Settings, World}
use dotty_stackchan.Realtime.Device.{stop_device_audio, interrupt}
use dotty_stackchan.Realtime.Input.{refresh_requested_profile, close}
use dotty_stackchan.Realtime.Tools.{Agents}
use dotty_stackchan.Realtime.Events.{ServerEvent, receive_event}
use dotty_stackchan.Realtime.System.{
  Action, messages, serves, prepares, completes, plays, refreshes, closes, step, run_steps,
}
use dotty_stackchan.Realtime.Barge.Past.{
  AreNewPending, IsLaterBlocked, IsPast, BringsNew, AllBringNew, PlaysNew, IsFresh, quiet,
  PlaysNew-append, IsFresh-disconnect,
}
use dotty_stackchan.Realtime.Barge.Input.{IsFresh-handle_device_message}
use dotty_stackchan.Realtime.Barge.Output.{
  IsFresh-play_output, IsFresh-handle_server_event, IsPast-prepare_put, IsPast-complete_put,
}

-- The entry that the receiver waits with, if any, is of the epoch `n` or an earlier one.
abbrev pub IsOldBlocked : ℕ → Option Entry → Type 0
IsOldBlocked n none = Unit
IsOldBlocked n (some (epoch, sound)) = epoch ≤ n

module _ (IsNew : Packet → Type 0) where
  IsFresh-receive_event :
      (c : Settings) (n : ℕ) (w : World) (a : Agents) (e : ServerEvent) (b : Bridge)
      → BringsNew IsNew (serves e)
      → IsPast IsNew n b
      → IsFresh IsNew n (receive_event c w a e b)
  unfolding receive_event
  IsFresh-receive_event c n w a e b new h =
      ground (arith, quiet IsNew h, IsFresh-handle_server_event IsNew c n w a e b new h)

  IsFresh-step :
      (c : Settings) (n : ℕ) (a : Agents) (w : World) (x : Action) (b : Bridge)
      → BringsNew IsNew x
      → IsPast IsNew n b
      → IsFresh IsNew n (step c a w x b)
  unfolding step refresh_requested_profile close
  IsFresh-step c n a w (messages m) b new h = (IsFresh-handle_device_message IsNew c n w m b h).done
  IsFresh-step c n a w (serves e) b new h = IsFresh-receive_event c n w a e b new h
  IsFresh-step c n a w prepares b new h = quiet IsNew (IsPast-prepare_put IsNew n b h)
  IsFresh-step c n a w completes b new h = quiet IsNew (IsPast-complete_put IsNew n b h)
  IsFresh-step c n a w plays b new h = IsFresh-play_output IsNew n w b h
  IsFresh-step c n a w refreshes b new h =
      ground (arith, quiet IsNew h, IsFresh-disconnect IsNew n w true b h.epoch)
  IsFresh-step c n a w closes b new h =
      IsFresh-disconnect IsNew n w true (record b { closed = true }) h.epoch

  IsFresh-run_steps :
      (c : Settings) (n : ℕ) (a : Agents) (xs : List (World × Action)) (b : Bridge)
      → AllBringNew IsNew xs
      → IsPast IsNew n b
      → IsFresh IsNew n (run_steps c a xs b)
  unfolding run_steps
  IsFresh-run_steps c n a [] b new h = quiet IsNew h
  IsFresh-run_steps c n a ((w, x) ∷ xs) b (new, later) h =
      let k = IsFresh-step c n a w x b new h in
      let l = IsFresh-run_steps c n a xs (step c a w x b).0 later k.past in
      record {
        past = l.past;
        played =
            PlaysNew-append IsNew (step c a w x b).1 (run_steps c a xs (step c a w x b).0).1
              k.played l.played;
      }

  IsPast-interrupt :
      (w : World) (b : Bridge)
      → AreNewPending IsNew b.unqueued
      → IsOldBlocked b.playback_epoch b.blocked
      → IsPast IsNew (suc b.playback_epoch) (interrupt w b).0
  unfolding interrupt stop_device_audio
  IsPast-interrupt w b idle old = record {
    epoch = omega arith;
    queue = tt;
    held = held b.blocked old;
    pending = idle;
  }
    where
      held :
          (o : Option Entry)
          → IsOldBlocked b.playback_epoch o
          → IsLaterBlocked IsNew (suc b.playback_epoch) o
      held none k = tt
      held (some (epoch, none)) k = tt
      held (some (epoch, some p)) k = inl (omega arith)

  -- After an interruption, whatever steps follow, every frame that is played is one that the receiver
  -- had still to put into the queue, or comes from an event that was received after it. The receiver
  -- may wait with a packet of an epoch up to the present one.
  pub run_steps-interrupt :
      (c : Settings) (a : Agents) (w : World) (xs : List (World × Action)) (b : Bridge)
      → AreNewPending IsNew b.unqueued
      → IsOldBlocked b.playback_epoch b.blocked
      → AllBringNew IsNew xs
      → PlaysNew IsNew (run_steps c a xs (interrupt w b).0).1
  run_steps-interrupt c a w xs b idle old new =
      (IsFresh-run_steps c (suc b.playback_epoch) a xs (interrupt w b).0 new
        (IsPast-interrupt w b idle old)).played
