-- ===== src/Perception/Delivery.antt =====
-- What the subscribers of the event bus receive.
use mathlib.Core.List.{append-nil, append_assoc}
use mathlib.Core.Path.{ap₂}
use dotty_stackchan.Prelude.{
  ℕ, zero, suc, ◌-◌, ◌<◌, ◌≡◌, refl, sym, ap, ◌∙◌, List, [], ◌∷◌, ◌++◌, map, arith, length,
  length-append, take, Bool-cases, inl, inr,
}
use dotty_stackchan.Perception.Types.{Event, Queue, State, Limits}
use dotty_stackchan.Perception.Bus.{offer, broadcast, broadcast_all, is_full}

-- The queue after all of `es`, by what fits.
abbrev pub filled : ℕ → List Event → Queue → Queue
filled m es q = record q { items = q.items ++ take (m - length q.items) es }

filled-offer :
    (m : ℕ) (e : Event) (es : List Event) (q : Queue)
    → 0 < m
    → filled m es (offer m e q) ≡ filled m (e ∷ es) q
unfolding offer
filled-offer m e es q h = elim (Bool-cases (is_full m q)) [
  | inl full ↦ let z : m - length q.items ≡ 0 = ground arith in rw full (rw z refl)
  | inr room ↦
      let z : m - length q.items ≡ suc (m - length (q.items ++ e ∷ [])) =
        ground (arith, length-append q.items (e ∷ [])) in
      rw room (rw (z, append_assoc) refl)
]

take-nil : (n : ℕ) → take {A = Event} n [] ≡ []
take-nil zero = refl
take-nil (suc n) = refl

map-filled-nil : (m : ℕ) (qs : List Queue) → map (filled m []) qs ≡ qs
map-filled-nil m [] = refl
map-filled-nil m (q ∷ qs) =
    let e : q.items ++ take (m - length q.items) [] ≡ q.items =
      rw (take-nil (m - length q.items)) (append-nil q.items) in
    ap₂ ◌∷◌ (ap (λ x. record q { items = x }) e) (map-filled-nil m qs)

listeners-broadcast :
    (l : Limits) (e : Event) (s : State)
    → (broadcast l e s).listeners ≡ map (offer l.queue_max e) s.listeners
unfolding broadcast
listeners-broadcast l e s = ground arith

map-filled-offer :
    (m : ℕ) (e : Event) (es : List Event) (qs : List Queue)
    → 0 < m
    → map (filled m es) (map (offer m e) qs) ≡ map (filled m (e ∷ es)) qs
map-filled-offer m e es [] h = refl
map-filled-offer m e es (q ∷ qs) h = rw (filled-offer m e es q h, map-filled-offer m e es qs h)

-- After any broadcasts, and with nothing taken, every subscriber's queue holds what it held and
-- then the first events that fit, in order. The bound of the queues is not 0.
pub listeners-broadcast_all :
    (l : Limits) (es : List Event) (s : State)
    → 0 < l.queue_max
    → (broadcast_all l es s).listeners ≡ map (filled l.queue_max es) s.listeners
unfolding broadcast_all
listeners-broadcast_all l [] s h = sym (map-filled-nil l.queue_max s.listeners)
listeners-broadcast_all l (e ∷ es) s h =
    listeners-broadcast_all l es (broadcast l e s) h
    ∙ ap (map (filled l.queue_max es)) (listeners-broadcast l e s)
    ∙ map-filled-offer l.queue_max e es s.listeners h
