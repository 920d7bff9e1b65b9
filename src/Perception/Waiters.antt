-- ===== src/Perception/Waiters.antt =====
-- The waiters of dotty-behaviour/perception/state.py: who polls for a fresh picture or sound of a
-- device. An `asyncio.Event` is its identity; `signalled` holds those that were set.
use dotty_stackchan.Prelude.{
  ℕ, ◌+◌, String, none, some, List, [], ◌∷◌, ◌++◌, if◌then◌else◌, nat_eq, is_empty,
}
use dotty_stackchan.Dict.{Dict, lookup, get_or, insert, remove}
use dotty_stackchan.Perception.Types.{State}

abbrev pub Waiters : Type 0
Waiters = Dict (List ℕ)

-- `waiters.setdefault(device_id, []).append(event)`
unfoldable pub enroll : String → ℕ → Waiters → Waiters
enroll device_id event w = insert device_id (get_or device_id [] w ++ event ∷ []) w

-- `list.remove`, with `ValueError` caught.
unfoldable pub remove_first : ℕ → List ℕ → List ℕ
remove_first event [] = []
remove_first event (x ∷ xs) =
    let rest = remove_first event xs in if nat_eq x event then xs else x ∷ rest

-- The body of `unregister_vision_waiter` and `unregister_audio_waiter`.
unfoldable pub dismiss : String → ℕ → Waiters → Waiters
unfolding remove_first
dismiss device_id event w = elim (lookup device_id w) [
  | none ↦ w
  | some waiters ↦
      if is_empty waiters
      then w
      else if is_empty (remove_first event waiters)
      then remove device_id (insert device_id (remove_first event waiters) w)
      else insert device_id (remove_first event waiters) w
]

unfoldable pub register_vision_waiter : String → State → ℕ × State
unfolding enroll
register_vision_waiter device_id s = (
  s.next_waiter,
  record s {
    vision_waiters = enroll device_id s.next_waiter s.vision_waiters;
    next_waiter = s.next_waiter + 1;
  },
)

unfoldable pub unregister_vision_waiter : String → ℕ → State → State
unfolding dismiss
unregister_vision_waiter device_id event s = record s {
  vision_waiters = dismiss device_id event s.vision_waiters;
}

unfoldable pub signal_vision_waiters : String → State → State
signal_vision_waiters device_id s = record s {
  signalled = get_or device_id [] s.vision_waiters ++ s.signalled;
}

unfoldable pub register_audio_waiter : String → State → ℕ × State
unfolding enroll
register_audio_waiter device_id s = (
  s.next_waiter,
  record s {
    audio_waiters = enroll device_id s.next_waiter s.audio_waiters;
    next_waiter = s.next_waiter + 1;
  },
)

unfoldable pub unregister_audio_waiter : String → ℕ → State → State
unfolding dismiss
unregister_audio_waiter device_id event s = record s {
  audio_waiters = dismiss device_id event s.audio_waiters;
}

unfoldable pub signal_audio_waiters : String → State → State
signal_audio_waiters device_id s = record s {
  signalled = get_or device_id [] s.audio_waiters ++ s.signalled;
}
