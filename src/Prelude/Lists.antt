-- ===== src/Prelude/Lists.antt =====
-- Python's lists and bounded deques: lists measured by native numbers.
use Prim.Native.Nat.{ℕ, zero, suc, ◌+◌, ◌-◌, ◌≤◌}
use mathlib.Core.Path.{◌≡◌, refl, ap, sym, ◌∙◌}
use mathlib.Core.Bool.{Bool, true, false, ◌||◌}
use mathlib.Core.List.{List, [], ◌∷◌, ◌++◌}
use native.Mathlib.Nat.{zero-add, suc-add}
use native.Mathlib.Omega.{arith}
use dotty_stackchan.Prelude.Tests.{if◌then◌else◌}

module _ {ℓ} {A : Type ℓ} where
  abbrev pub length : List A → ℕ
  length [] = 0
  length (x ∷ xs) = suc (length xs)

  abbrev pub take : ℕ → List A → List A
  take zero xs = []
  take (suc n) [] = []
  take (suc n) (x ∷ xs) = x ∷ take n xs

  abbrev pub drop : ℕ → List A → List A
  drop zero xs = xs
  drop (suc n) [] = []
  drop (suc n) (x ∷ xs) = drop n xs

  abbrev pub is_empty : List A → Bool
  is_empty [] = true
  is_empty (x ∷ xs) = false

  abbrev pub keep : (A → Bool) → List A → List A
  keep p [] = []
  keep p (x ∷ xs) = if p x then x ∷ keep p xs else keep p xs

  abbrev pub any : (A → Bool) → List A → Bool
  any p [] = false
  any p (x ∷ xs) = p x || any p xs

module _ {ℓ} {A : Type ℓ} where
  pub length-append : (xs ys : List A) → length (xs ++ ys) ≡ length xs + length ys
  length-append [] ys = omega arith
  length-append (x ∷ xs) ys = omega (arith, length-append xs ys)

  pub length-drop : (n : ℕ) (xs : List A) → length (drop n xs) ≡ length xs - n
  length-drop zero xs = omega arith
  length-drop (suc n) [] = omega arith
  length-drop (suc n) (x ∷ xs) = omega (arith, length-drop n xs)

  pub drop-append : (n : ℕ) (xs ys : List A) → n ≤ length xs → drop n (xs ++ ys) ≡ drop n xs ++ ys
  drop-append zero xs ys h = refl
  drop-append (suc n) [] ys h = absurd (omega arith)
  drop-append (suc n) (x ∷ xs) ys h = drop-append n xs ys (omega arith)

  pub drop-nil : (n : ℕ) → drop {A = A} n [] ≡ []
  drop-nil zero = refl
  drop-nil (suc n) = refl

  pub drop-drop : (m n : ℕ) (xs : List A) → drop m (drop n xs) ≡ drop (n + m) xs
  drop-drop m zero xs = rw zero-add
  drop-drop m (suc n) [] = rw (drop-nil m, drop-nil (suc n + m))
  drop-drop m (suc n) (x ∷ xs) = rw suc-add (drop-drop m n xs)

  pub keep-append : (p : A → Bool) (xs ys : List A) → keep p (xs ++ ys) ≡ keep p xs ++ keep p ys
  keep-append p [] ys = refl
  keep-append p (x ∷ xs) ys = ground (arith, keep-append p xs ys)

module _ {ℓ} {A : Type ℓ} where
  -- The newest `m` elements of a list that grows at its right end.
  unfoldable pub last_n : ℕ → List A → List A
  last_n m xs = drop (length xs - m) xs

  pub length-last_n-le : (m : ℕ) (xs : List A) → length (last_n m xs) ≤ m
  unfolding last_n
  length-last_n-le m xs = omega (arith, length-drop (length xs - m) xs)

  -- `collections.deque(maxlen=m).append(x)`: past `m` elements the oldest goes.
  unfoldable pub deque_append : ℕ → List A → A → List A
  deque_append m xs x = last_n m (xs ++ x ∷ [])

  -- A bounded deque holds the newest elements of all that was ever appended.
  pub deque_append-last_n :
      (m : ℕ) (xs : List A) (x : A) → deque_append m (last_n m xs) x ≡ last_n m (xs ++ x ∷ [])
  unfolding deque_append last_n
  deque_append-last_n m xs x =
      (ap (λ l. drop (length l - m) l) (sym (drop-append k xs (x ∷ []) (omega arith)))
        ∙ drop-drop (length (drop k (xs ++ x ∷ [])) - m) k (xs ++ x ∷ [])
        ∙ ap (λ i. drop i (xs ++ x ∷ []))
            (omega (arith, length-drop k (xs ++ x ∷ []), length-append xs (x ∷ []))))
    where
      k : ℕ
      k = length xs - m
