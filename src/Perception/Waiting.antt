-- ===== src/Perception/Waiting.antt =====
-- Waiters are registered, signalled and dropped without loss and without leftovers.
use dotty_stackchan.Prelude.{
  ℕ, String, ◌≡◌, refl, ◌≢◌, false, Option, none, some, List, [], ◌∷◌, ◌++◌, arith, ◌==◌, eq_iff,
  eq_refl, nat_eq, if◌then◌else◌, is_empty, any,
}
use dotty_stackchan.Dict.{lookup, get_or, lookup-insert, lookup-remove}
use dotty_stackchan.Perception.Waiters.{Waiters, enroll, remove_first, dismiss}

-- No device keeps an empty list of waiters.
pub record HasNoEmpty (w : Waiters) : Type 0 where
  pub full : (id : String) → lookup id w ≢ some []

append-one-ne-nil : (event : ℕ) (xs : List ℕ) → xs ++ event ∷ [] ≢ []
append-one-ne-nil event [] = λ p. cc p
append-one-ne-nil event (x ∷ xs) = λ p. cc p

pub enroll-HasNoEmpty :
    (id : String) (event : ℕ) (w : Waiters) → HasNoEmpty w → HasNoEmpty (enroll id event w)
unfolding enroll get_or
enroll-HasNoEmpty id event w h = record {
  full = λ j p. ground (
    arith,
    lookup-insert id j (get_or id [] w ++ event ∷ []) w,
    append-one-ne-nil event (get_or id [] w),
    h.full j,
  );
}

-- A waiter that leaves, registered or not, leaves no device with an empty list of waiters.
dismiss-HasNoEmpty :
    (id : String) (event : ℕ) (w : Waiters) → HasNoEmpty w → HasNoEmpty (dismiss id event w)
unfolding dismiss
dismiss-HasNoEmpty id event w h = record {
  full = λ j p. grind (arith, lookup-insert, lookup-remove, h.full j);
}

remove_first-append :
    (event : ℕ) (xs : List ℕ)
    → any (nat_eq event) xs ≡ false
    → remove_first event (xs ++ event ∷ []) ≡ xs
unfolding remove_first
remove_first-append event [] h = ground arith
remove_first-append event (x ∷ xs) h = ground (arith, remove_first-append event xs)

-- What one waiter's leaving makes of the waiters of its device.
abbrev remaining : ℕ → Option (List ℕ) → Option (List ℕ)
remaining event none = none
remaining event (some ws) =
    if is_empty ws
    then some ws
    else if is_empty (remove_first event ws)
    then none
    else some (remove_first event ws)

lookup-dismiss :
    (id j : String) (event : ℕ) (w : Waiters)
    → lookup j (dismiss id event w)
      ≡ (if id == j then remaining event (lookup id w) else lookup j w)
unfolding dismiss
lookup-dismiss id j event w = grind (arith, lookup-insert, lookup-remove, eq_iff id j)

remaining-enrolled :
    (event : ℕ) (o : Option (List ℕ))
    → o ≢ some []
    → any (nat_eq event) (elim o [ none ↦ [] | some ws ↦ ws ]) ≡ false
    → remaining event (some ((elim o [ none ↦ [] | some ws ↦ ws ]) ++ event ∷ [])) ≡ o
remaining-enrolled event none h new = rw (remove_first-append event [] refl) refl
remaining-enrolled event (some []) h new = absurd (h refl)
remaining-enrolled event (some (x ∷ ws)) h new = rw (remove_first-append event (x ∷ ws) new) refl

-- A waiter that registers and then leaves, with an identity that no waiter of the device has,
-- leaves every device's waiters as they were.
pub dismiss-enroll :
    (id j : String) (event : ℕ) (w : Waiters)
    → HasNoEmpty w
    → any (nat_eq event) (get_or id [] w) ≡ false
    → lookup j (dismiss id event (enroll id event w)) ≡ lookup j w
unfolding enroll get_or
dismiss-enroll id j event w h new = ground (
  arith,
  lookup-dismiss id j event (enroll id event w),
  lookup-insert id j (get_or id [] w ++ event ∷ []) w,
  lookup-insert id id (get_or id [] w ++ event ∷ []) w,
  remaining-enrolled event (lookup id w) (h.full id) new,
  eq_iff id j,
  eq_refl id,
)
