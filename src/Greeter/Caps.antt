-- ===== src/Greeter/Caps.antt =====
-- The daily cap and the cooldown hold over every run of the greeter.
use dotty_stackchan.Prelude.{
  ℕ, ◌+◌, ◌≤◌, ◌<◌, String, ◌≡◌, refl, ap, ◌∙◌, ◌⊎◌, inl, inr, false, not, ◌&&◌, Option, List, [],
  ◌∷◌, arith, ◌==◌, eq_iff, eq_refl, if◌then◌else◌, Bool-cases, length,
}
use mathlib.Core.Path.{subst}
use dotty_stackchan.Dict.{Dict, lookup, get_or}
use dotty_stackchan.Dict.{get_or-insert}
use dotty_stackchan.Greeter.Slots.{
  refuses, Slot, no_slot, Log, Settings, time_of, open_day, slot_of, take_slot,
}

get_or-one : (k : String) (v : Dict Slot) → get_or k [] ((k, v) ∷ []) ≡ v
unfolding get_or lookup
get_or-one k v = ground (arith, eq_refl k)

bucket-open_day :
    (today : String) (log : Log) → get_or today [] (open_day today log) ≡ get_or today [] log
unfolding open_day
bucket-open_day today log =
    let fresh : Log = (today, get_or today [] log) ∷ [] in
    ground (
      arith,
      get_or-insert today today (get_or today [] log) [] log,
      get_or-insert today today (get_or today [] fresh) [] fresh,
      get_or-one today (get_or today [] log),
      eq_refl today,
    )

slot_of-open_day :
    (today i : String) (log : Log) → slot_of today i (open_day today log) ≡ slot_of today i log
slot_of-open_day today i log = ap (get_or i no_slot) (bucket-open_day today log)

module _ (s : Settings) (today : String) where
  -- What an attempt makes of the slots of its day.
  pub slot-take_slot :
      (i j : String) (ts : Option ℕ) (clock : ℕ) (log : Log)
      → slot_of today j (take_slot s i ts clock today log).0 ≡ (
          if refuses s (slot_of today i log) (time_of ts clock)
          then slot_of today j log
          else if i == j
          then record { count = (slot_of today i log).count + 1; last_ts = time_of ts clock }
          else slot_of today j log)
  unfolding take_slot
  slot-take_slot i j ts clock log =
      rw (bucket-open_day today log)
        (elim (Bool-cases (refuses s (slot_of today i log) (time_of ts clock))) [
          | inl no_more ↦ rw no_more (rw (bucket-open_day today log) refl)
          | inr fine ↦ rw (fine, get_or-insert, eq_refl today) (get_or-insert i j _ no_slot _)
        ])

  pub granted-take_slot :
      (i : String) (ts : Option ℕ) (clock : ℕ) (log : Log)
      → (take_slot s i ts clock today log).1
        ≡ not (refuses s (slot_of today i log) (time_of ts clock))
  unfolding take_slot
  granted-take_slot i ts clock log =
      rw (bucket-open_day today log)
        (elim (Bool-cases (refuses s (slot_of today i log) (time_of ts clock))) [
          | inl no_more ↦ rw no_more refl
          | inr fine ↦ rw fine refl
        ])

-- What a slot that is not refused gives.
pub not-refuses :
    (s : Settings) (slot : Slot) (now : ℕ)
    → refuses s slot now ≡ false
    → (slot.count < s.per_day_max)
      × ((slot.last_ts ≡ 0) ⊎ (slot.last_ts + s.cooldown_seconds ≤ now))
unfolding refuses
not-refuses s slot now h = ground arith

-- One attempt at a greeting: who, the time of the event and of the clock.
pub record Attempt : Type 0 where
  pub identity : String
  pub event_ts : Option ℕ
  pub clock : ℕ

-- The attempts of one date, one after the other, and the times at which `who` was granted one.
unfoldable pub grants : Settings → String → String → List Attempt → Log → List ℕ
grants s today who [] log = []
grants s today who (a ∷ xs) log =
    let (log', granted) = take_slot s a.identity a.event_ts a.clock today log in
    let rest = grants s today who xs log' in
    if granted && a.identity == who then time_of a.event_ts a.clock ∷ rest else rest

-- Each time lies at least `gap` after the one before it, if that was not 0.
abbrev pub Spaced : ℕ → ℕ → List ℕ → Type 0
Spaced gap before [] = Unit
Spaced gap before (t ∷ ts) = ((before ≡ 0) ⊎ (before + gap ≤ t)) × Spaced gap t ts

module _ (s : Settings) (today who : String) where
  grants_step :
      (a : Attempt) (xs : List Attempt) (log : Log) (slot : Slot)
      → slot_of today who log ≡ slot
      → ((t : Slot)
          → slot_of today who (take_slot s a.identity a.event_ts a.clock today log).0 ≡ t
          → t.count ≤ s.per_day_max
          → (length (grants s today who xs (take_slot s a.identity a.event_ts a.clock today log).0)
                + t.count
              ≤ s.per_day_max)
            × Spaced s.cooldown_seconds t.last_ts
                (grants s today who xs (take_slot s a.identity a.event_ts a.clock today log).0))
      → slot.count ≤ s.per_day_max
      → (length (grants s today who (a ∷ xs) log) + slot.count ≤ s.per_day_max)
        × Spaced s.cooldown_seconds slot.last_ts (grants s today who (a ∷ xs) log)
  unfolding grants
  grants_step a xs log slot e ih h =
      let now : ℕ = time_of a.event_ts a.clock in
      let mine : Slot = slot_of today a.identity log in
      rw (granted-take_slot s today a.identity a.event_ts a.clock log)
        (elim (Bool-cases (refuses s mine now)) [
          | inl no_more ↦ rw no_more (
              ih slot (slot-take_slot s today a.identity who a.event_ts a.clock log ∙ rw no_more e)
                h)
          | inr fine ↦ elim (Bool-cases (a.identity == who)) [
            | inl same ↦
                let id_eq : a.identity ≡ who = (eq_iff a.identity who).0 same in
                let mine_eq : mine ≡ slot = ap (λ i. slot_of today i log) id_eq ∙ e in
                let counts : mine.count ≡ slot.count = ap (λ (x : Slot). x.count) mine_eq in
                let next : Slot = record { count = mine.count + 1; last_ts = now } in
                let (room, gap) = not-refuses s mine now fine in
                let (few, spaced) =
                  ih next
                    (slot-take_slot s today a.identity who a.event_ts a.clock log
                      ∙ rw (fine, same) refl)
                    (omega arith) in
                rw (fine, same)
                  (
                    omega arith,
                    (
                      subst (λ (x : Slot). (x.last_ts ≡ 0) ⊎ (x.last_ts + s.cooldown_seconds ≤ now))
                          mine_eq gap,
                      spaced,
                    ),
                  )
            | inr other ↦
                rw (fine, other)
                  (ih slot
                    (slot-take_slot s today a.identity who a.event_ts a.clock log
                      ∙ rw (fine, other) e)
                    h)
          ]
        ])

  grants_bounds :
      (xs : List Attempt) (log : Log) (slot : Slot)
      → slot_of today who log ≡ slot
      → slot.count ≤ s.per_day_max
      → (length (grants s today who xs log) + slot.count ≤ s.per_day_max)
        × Spaced s.cooldown_seconds slot.last_ts (grants s today who xs log)
  unfolding grants
  grants_bounds [] log slot e h = (omega arith, tt)
  grants_bounds (a ∷ xs) log slot e h =
      grants_step a xs log slot e
        (grants_bounds xs (take_slot s a.identity a.event_ts a.clock today log).0) h

-- Over any attempts of one date, from a log without a slot of an identity, that identity is greeted
-- at most `per_day_max` times, and each greeting comes at least the cooldown after the one before
-- it (a greeting at time 0 leaves no cooldown).
pub grants-capped :
    (s : Settings) (today who : String) (xs : List Attempt) (log : Log)
    → slot_of today who log ≡ no_slot
    → (length (grants s today who xs log) ≤ s.per_day_max)
      × Spaced s.cooldown_seconds 0 (grants s today who xs log)
grants-capped s today who xs log new =
    let (few, spaced) = grants_bounds s today who xs log no_slot new (omega arith) in
    (omega arith, spaced)
