-- ===== src/Realtime/Barge/Past.antt =====
-- What may still be played after an interruption, and the parts of the handlers that keep it.
use dotty_stackchan.Prelude.{
  ℕ, ◌≤◌, ◌<◌, ◌⊎◌, Bool, true, false, Option, none, some, List, [], ◌∷◌, ◌++◌, arith,
}
use dotty_stackchan.Realtime.State.{
  Packet, Pending, packet, audio_end, Entry, Effect, frame_played, Bridge, World, Done,
}
use dotty_stackchan.Realtime.Device.{
  stop_device_audio, claim_voice_route, drop_session, disconnect, interrupt, release_voice_route,
}
use dotty_stackchan.Realtime.Events.{audio_delta, audio_done, response_done}
use dotty_stackchan.Realtime.System.{Action, serves}

module _ (IsNew : Packet → Type 0) where
  -- An entry of an epoch before `n`, the end of the sound, or a new packet.
  abbrev pub IsLater : ℕ → Entry → Type 0
  IsLater n (epoch, none) = Unit
  IsLater n (epoch, some p) = (epoch < n) ⊎ IsNew p

  abbrev pub AreLater : ℕ → List Entry → Type 0
  AreLater n [] = Unit
  AreLater n (entry ∷ entries) = IsLater n entry × AreLater n entries

  abbrev pub AreNewPending : List Pending → Type 0
  AreNewPending [] = Unit
  AreNewPending (audio_end ∷ rest) = AreNewPending rest
  AreNewPending (packet p ∷ rest) = IsNew p × AreNewPending rest

  abbrev pub AreNewPackets : List Packet → Type 0
  AreNewPackets [] = Unit
  AreNewPackets (p ∷ ps) = IsNew p × AreNewPackets ps

  abbrev pub IsLaterBlocked : ℕ → Option Entry → Type 0
  IsLaterBlocked n none = Unit
  IsLaterBlocked n (some entry) = IsLater n entry

  -- All that may still be played in the epoch `n` or a later one is new.
  pub record IsPast (n : ℕ) (b : Bridge) : Type 0 where
    pub epoch : n ≤ b.playback_epoch
    pub queue : AreLater n b.output_queue
    pub held : IsLaterBlocked n b.blocked
    pub pending : AreNewPending b.unqueued

  -- The packets that an event brings are new.
  abbrev pub BringsNew : Action → Type 0
  BringsNew (serves (audio_delta (some ps))) = AreNewPackets ps
  BringsNew (serves (audio_done ps)) = AreNewPackets ps
  BringsNew (serves (response_done calls ps)) = AreNewPackets ps
  BringsNew _ = Unit

  abbrev pub AllBringNew : List (World × Action) → Type 0
  AllBringNew [] = Unit
  AllBringNew ((w, x) ∷ xs) = BringsNew x × AllBringNew xs

  -- Every frame that is played is new.
  abbrev pub PlaysNew : List Effect → Type 0
  PlaysNew [] = Unit
  PlaysNew (frame_played p ∷ effects) = IsNew p × PlaysNew effects
  PlaysNew (_ ∷ effects) = PlaysNew effects

  -- What a handler leaves is past, and what it plays is new.
  pub record IsFresh (n : ℕ) (r : Done) : Type 0 where
    pub past : IsPast n r.0
    pub played : PlaysNew r.1

  pub quiet : {n : ℕ} {b : Bridge} → IsPast n b → IsFresh n (b, [])
  quiet h = record { past = h; played = tt }

  pub PlaysNew-append : (xs ys : List Effect) → PlaysNew xs → PlaysNew ys → PlaysNew (xs ++ ys)
  PlaysNew-append [] ys h k = k
  PlaysNew-append (x ∷ xs) ys h k = ground (arith, PlaysNew-append xs ys)

  pub IsFresh-stop_device_audio :
      (n : ℕ) (w : World) (b : Bridge) → IsPast n b → IsFresh n (stop_device_audio w b)
  unfolding stop_device_audio
  IsFresh-stop_device_audio n w b h = ground arith

  pub IsFresh-drop_session :
      (n : ℕ) (b : Bridge) → n ≤ b.playback_epoch → IsFresh n (drop_session b)
  unfolding drop_session release_voice_route
  IsFresh-drop_session n b h = ground arith

  pub IsFresh-disconnect :
      (n : ℕ) (w : World) (stop : Bool) (b : Bridge)
      → n ≤ b.playback_epoch
      → IsFresh n (disconnect w stop b)
  unfolding disconnect stop_device_audio
  IsFresh-disconnect n w true b h =
      let k = IsFresh-drop_session n (stop_device_audio w b).0 h in
      record {
        past = k.past;
        played = PlaysNew-append (stop_device_audio w b).1 _ (ground arith) k.played;
      }
  IsFresh-disconnect n w false b h = IsFresh-drop_session n b h

  pub IsFresh-interrupt : (n : ℕ) (w : World) (b : Bridge) → IsPast n b → IsFresh n (interrupt w b)
  unfolding interrupt stop_device_audio
  IsFresh-interrupt n w b h = ground arith

  pub IsFresh-claim_voice_route :
      (n : ℕ) (w : World) (b : Bridge) → IsPast n b → IsFresh n (claim_voice_route w b)
  unfolding claim_voice_route
  IsFresh-claim_voice_route n w b h = ground arith
