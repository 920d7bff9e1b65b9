-- ===== src/Activity/Seen.antt =====
-- The identities that the activity store remembers: the set and the bounded deque of
-- bridge/activity.py hold the same ones.
use dotty_stackchan.Prelude.{
  nat_eq_iff, nat_eq, inr, inl, Bool-cases, eq_refl, true, ◌<◌, ap, ℕ, suc, ◌≤◌, String, ◌≡◌, refl,
  sym, ◌∙◌, false, not, ◌||◌, List, [], ◌∷◌, ◌++◌, arith, ◌==◌, eq_iff, if◌then◌else◌, length, keep,
  length-append,
}
use mathlib.Core.List.{append_assoc}
use dotty_stackchan.Activity.Store.{pop_oldest, remember, member}

abbrev pub IsDistinct : List String → Type 0
IsDistinct [] = Unit
IsDistinct (x ∷ xs) = (member x xs ≡ false) × IsDistinct xs

-- At most `m` identities, each once, and the same ones in the set.
abbrev pub IsConsistent : ℕ → List String × List String → Type 0
IsConsistent m (order, seen) =
    IsDistinct order × (length order ≤ m) × ((j : String) → member j seen ≡ member j order)

pub member-append :
    (j : String) (xs ys : List String) → member j (xs ++ ys) ≡ (member j xs || member j ys)
member-append j [] ys = refl
member-append j (x ∷ xs) ys = ground (arith, member-append j xs ys)

member-keep :
    (j o : String) (xs : List String)
    → member j (keep (λ i. not (i == o)) xs) ≡ (if j == o then false else member j xs)
member-keep j o [] = ground arith
member-keep j o (x ∷ xs) = ground (arith, member-keep j o xs, eq_iff x o, eq_iff x j, eq_iff j o)

pub IsDistinct-append :
    (xs : List String) (x : String)
    → IsDistinct xs
    → member x xs ≡ false
    → IsDistinct (xs ++ x ∷ [])
IsDistinct-append [] x h new = (refl, tt)
IsDistinct-append (y ∷ ys) x (fresh, h) new = (
  ground (arith, member-append y ys (x ∷ []), eq_iff x y, eq_iff y x),
  IsDistinct-append ys x h (ground (arith, eq_iff y x)),
)

remember-new :
    (m : ℕ) (id : String) (order seen : List String)
    → IsConsistent m (order, seen)
    → suc (length order) ≤ m
    → member id seen ≡ false
    → IsConsistent m (order ++ id ∷ [], id ∷ seen)
remember-new m id order seen (distinct, bound, same) room new = (
  IsDistinct-append order id distinct (sym (same id) ∙ new),
  omega (arith, length-append order (id ∷ [])),
  λ j. ground (arith, member-append j order (id ∷ []), same j),
)

pop-IsConsistent :
    (m : ℕ) (o : String) (order seen : List String)
    → IsConsistent m (o ∷ order, seen)
    → IsConsistent m (order, keep (λ j. not (j == o)) seen)
pop-IsConsistent m o order seen ((fresh, distinct), bound, same) = (
  distinct,
  omega arith,
  λ j. ground (arith, member-keep j o seen, same j, eq_iff j o, eq_iff o j),
)

remember-full :
    (m : ℕ) (id : String) (order seen : List String)
    → 0 < m
    → IsConsistent m (order, seen)
    → member id seen ≡ false
    → length order ≡ m
    → IsConsistent m ((pop_oldest order seen).0 ++ id ∷ [], id ∷ (pop_oldest order seen).1)
remember-full m id [] seen positive h new full = absurd (omega arith)
remember-full m id (o ∷ order) seen positive h new full =
    remember-new m id order (keep (λ j. not (j == o)) seen) (pop-IsConsistent m o order seen h)
      (omega arith) (ground (arith, member-keep id o seen, eq_iff id o))

-- The set and the deque stay in step, and within the bound, which is not 0.
pub remember-IsConsistent :
    (m : ℕ) (id : String) (order seen : List String)
    → 0 < m
    → IsConsistent m (order, seen)
    → IsConsistent m (remember m id (order, seen)).0
unfolding remember
remember-IsConsistent m id order seen positive h = elim (Bool-cases (member id seen)) [
  | inl old ↦ rw old h
  | inr new ↦ elim (Bool-cases (nat_eq (length order) m)) [
    | inl full ↦
        rw (new, full)
          (remember-full m id order seen positive h new
            (ground (arith, nat_eq_iff (length order) m)))
    | inr room ↦
        rw (new, room)
          (remember-new m id order seen h (ground (arith, nat_eq_iff (length order) m, h.1)) new)
  ]
]

-- The identity is in the deque, with at most `k` younger ones.
abbrev pub IsYoung : ℕ → String → List String → Type 0
IsYoung k id order =
    (older : List String) × (younger : List String) × (order ≡ older ++ id ∷ younger)
    × (length younger ≤ k)

abbrev tail_ids : List String → List String
tail_ids [] = []
tail_ids (x ∷ xs) = xs

tail-pop_oldest : (order seen : List String) → (pop_oldest order seen).0 ≡ tail_ids order
tail-pop_oldest [] seen = refl
tail-pop_oldest (o ∷ order) seen = refl

IsYoung-tail :
    (m k : ℕ) (id j : String) (order older younger : List String)
    → order ≡ older ++ id ∷ younger
    → length younger ≤ k
    → suc (suc k) ≤ m
    → length order ≡ m
    → IsYoung (suc k) id (tail_ids order ++ j ∷ [])
IsYoung-tail m k id j order [] younger split bound room full =
    absurd (omega (arith, ap length split))
IsYoung-tail m k id j order (o ∷ older) younger split bound room full = (
  older,
  younger ++ j ∷ [],
  ap (λ l. tail_ids l ++ j ∷ []) split ∙ append_assoc older (id ∷ younger) (j ∷ []),
  omega (arith, length-append younger (j ∷ [])),
)

-- One more identity makes a young one older by one at most.
pub IsYoung-remember :
    (m k : ℕ) (id j : String) (order seen : List String)
    → suc (suc k) ≤ m
    → IsYoung k id order
    → IsYoung (suc k) id (remember m j (order, seen)).0.0
unfolding remember
IsYoung-remember m k id j order seen room (older, younger, split, bound) =
    elim (Bool-cases (member j seen)) [
      | inl old ↦ rw old (older, younger, split, omega arith)
      | inr new ↦ elim (Bool-cases (nat_eq (length order) m)) [
        | inl full ↦
            rw (new, full, tail-pop_oldest)
              (IsYoung-tail m k id j order older younger split bound room
                (ground (arith, nat_eq_iff (length order) m)))
        | inr other ↦
            rw (new, other)
              (
                older,
                younger ++ j ∷ [],
                ap (λ l. l ++ j ∷ []) split ∙ append_assoc older (id ∷ younger) (j ∷ []),
                omega (arith, length-append younger (j ∷ [])),
              )
      ]
    ]

pub IsYoung-new :
    (m : ℕ) (id : String) (order seen : List String)
    → (remember m id (order, seen)).1 ≡ true
    → IsYoung 0 id (remember m id (order, seen)).0.0
unfolding remember
IsYoung-new m id order seen new = elim (Bool-cases (member id seen)) [
  | inl old ↦ absurd (ground arith)
  | inr fresh ↦ elim (Bool-cases (nat_eq (length order) m)) [
    | inl full ↦ rw (fresh, full) ((pop_oldest order seen).0, [], refl, omega arith)
    | inr room ↦ rw (fresh, room) (order, [], refl, omega arith)
  ]
]

pub IsYoung-member :
    (k : ℕ) (id : String) (order : List String) → IsYoung k id order → member id order ≡ true
IsYoung-member k id order (older, younger, split, bound) =
    ap (member id) split ∙ ground (arith, member-append id older (id ∷ younger), eq_refl id)
