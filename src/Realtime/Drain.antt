-- ===== src/Realtime/Drain.antt =====
-- That the player comes to the end of its queue, and what it plays on the way.
use dotty_stackchan.Prelude.{
  ℕ, zero, suc, ◌≡◌, refl, sym, ap, ◌∙◌, true, false, none, some, List, [], ◌∷◌, ◌++◌, arith,
  nat_eq, if◌then◌else◌, length,
}
use mathlib.Core.Path.{subst, ap₂}
use dotty_stackchan.Realtime.State.{Packet, Entry, Effect, frame_played, Bridge, World, Done}
use dotty_stackchan.Realtime.Device.{stop_device_audio}
use dotty_stackchan.Realtime.Player.{play_output, play_entry, play_packet, end_sound, is_playing}
use dotty_stackchan.Realtime.KidMode.{is_shut}

-- Turns of the player one after another.
unfoldable pub play_turns : World → ℕ → Bridge → Done
play_turns w zero b = (b, [])
play_turns w (suc n) b = let r = play_output w b in let s = play_turns w n r.0 in (s.0, r.1 ++ s.1)

-- The packets that were played, in order.
abbrev pub frames : List Effect → List Packet
frames [] = []
frames (frame_played p ∷ effects) = p ∷ frames effects
frames (_ ∷ effects) = frames effects

-- The packets of a queue that are of an epoch.
abbrev pub of_epoch : ℕ → List Entry → List Packet
of_epoch n [] = []
of_epoch n ((epoch, none) ∷ rest) = of_epoch n rest
of_epoch n ((epoch, some p) ∷ rest) =
    if nat_eq epoch n then p ∷ of_epoch n rest else of_epoch n rest

frames-append : (xs ys : List Effect) → frames (xs ++ ys) ≡ frames xs ++ frames ys
frames-append [] ys = refl
frames-append (x ∷ xs) ys = ground (arith, frames-append xs ys)

-- One entry, with the rest of the queue and the epoch as they are.
record Plays (entry : Entry) (b : Bridge) (r : Done) : Type 0 where
  queue : r.0.output_queue ≡ b.output_queue
  epoch : r.0.playback_epoch ≡ b.playback_epoch
  alive : r.0.player_done ≡ b.player_done
  heard : frames r.1 ≡ of_epoch b.playback_epoch (entry ∷ [])

Plays-play_entry :
    (w : World) (entry : Entry) (b : Bridge)
    → is_shut w ≡ false
    → w.device_takes ≡ true
    → Plays entry b (play_entry w entry b)
unfolding play_entry end_sound play_packet stop_device_audio
Plays-play_entry w (epoch, none) b clear takes = ground arith
Plays-play_entry w (epoch, some p) b clear takes = ground arith

of_epoch-cons :
    (n : ℕ) (entry : Entry) (rest : List Entry)
    → of_epoch n (entry ∷ rest) ≡ of_epoch n (entry ∷ []) ++ of_epoch n rest
of_epoch-cons n (epoch, none) rest = refl
of_epoch-cons n (epoch, some p) rest = ground arith

play_output-cons :
    (w : World) (entry : Entry) (rest : List Entry) (b : Bridge)
    → is_playing b ≡ true
    → b.output_queue ≡ entry ∷ rest
    → play_output w b ≡ play_entry w entry (record b { output_queue = rest })
unfolding play_output
play_output-cons w entry rest b playing e = rw (playing, e) refl

Plays-play_output :
    (w : World) (entry : Entry) (rest : List Entry) (b : Bridge)
    → is_shut w ≡ false
    → w.device_takes ≡ true
    → is_playing b ≡ true
    → b.output_queue ≡ entry ∷ rest
    → Plays entry (record b { output_queue = rest }) (play_output w b)
Plays-play_output w entry rest b clear takes playing e =
    subst (Plays entry (record b { output_queue = rest }))
      (sym (play_output-cons w entry rest b playing e))
      (Plays-play_entry w entry (record b { output_queue = rest }) clear takes)

-- After the given turns the queue is empty, and the given packets were played.
record Drained (r : Done) (packets : List Packet) : Type 0 where
  empty : r.0.output_queue ≡ []
  heard : frames r.1 ≡ packets

Drained-cons :
    (w : World) (entry : Entry) (rest : List Entry) (b : Bridge)
    → Plays entry (record b { output_queue = rest }) (play_output w b)
    → Drained
        (play_turns w (length rest) (play_output w b).0)
        (of_epoch (play_output w b).0.playback_epoch rest)
    → Drained (play_turns w (suc (length rest)) b) (of_epoch b.playback_epoch (entry ∷ rest))
unfolding play_turns
Drained-cons w entry rest b one later = record {
  empty = later.empty;
  heard =
      frames-append (play_output w b).1 (play_turns w (length rest) (play_output w b).0).1
      ∙ ap₂ (λ xs ys. xs ++ ys) one.heard (later.heard ∙ ap (λ n. of_epoch n rest) one.epoch)
      ∙ sym (of_epoch-cons b.playback_epoch entry rest);
}

Drained-play_turns :
    (w : World) (queue : List Entry) (b : Bridge)
    → is_shut w ≡ false
    → w.device_takes ≡ true
    → is_playing b ≡ true
    → b.output_queue ≡ queue
    → Drained (play_turns w (length queue) b) (of_epoch b.playback_epoch queue)
unfolding play_turns
Drained-play_turns w [] b clear takes playing e = record { empty = e; heard = refl }
Drained-play_turns w (entry ∷ rest) b clear takes playing e =
    let one = Plays-play_output w entry rest b clear takes playing e in
    Drained-cons w entry rest b one (
      Drained-play_turns w rest (play_output w b).0 clear takes (ground (arith, one.alive))
        one.queue)

-- While the player lives, the route is open and the device takes what it is sent, as many turns as
-- the queue has entries empty it, and play exactly its packets of the present epoch, in order.
pub play_turns_drains :
    (w : World) (b : Bridge)
    → is_shut w ≡ false
    → w.device_takes ≡ true
    → is_playing b ≡ true
    → ((play_turns w (length b.output_queue) b).0.output_queue ≡ [])
      × (frames (play_turns w (length b.output_queue) b).1
          ≡ of_epoch b.playback_epoch b.output_queue)
play_turns_drains w b clear takes playing =
    let r = Drained-play_turns w b.output_queue b clear takes playing refl in (r.empty, r.heard)
