-- ===== src/Dict.antt =====
-- Python's `dict` with text keys: the entries in the order of their first insertion.
use dotty_stackchan.Prelude.{
  suc, String, ◌≡◌, refl, Bool, true, false, Option, none, some, List, [], ◌∷◌, arith, ◌==◌, eq_iff,
  if◌then◌else◌, length,
}

abbrev pub Dict {ℓ} : Type ℓ → Type ℓ
Dict V = List (String × V)

module _ {ℓ} {V : Type ℓ} where
  -- d.get(k)
  unfoldable pub lookup : String → Dict V → Option V
  lookup k [] = none
  lookup k ((j, v) ∷ d) = if j == k then some v else lookup k d

  -- d.get(k, x)
  unfoldable pub get_or : String → V → Dict V → V
  unfolding lookup
  get_or k x d = elim (lookup k d) [ none ↦ x | some v ↦ v ]

  -- d[k] = v
  unfoldable pub insert : String → V → Dict V → Dict V
  insert k v [] = (k, v) ∷ []
  insert k v ((j, w) ∷ d) = if j == k then (j, v) ∷ d else (j, w) ∷ insert k v d

  -- d.pop(k, None)
  unfoldable pub remove : String → Dict V → Dict V
  remove k [] = []
  remove k ((j, w) ∷ d) = let rest = remove k d in if j == k then rest else (j, w) ∷ rest

  -- k in d
  unfoldable pub has_key : String → Dict V → Bool
  has_key k [] = false
  has_key k ((j, w) ∷ d) = if j == k then true else has_key k d

  pub lookup-insert :
      (k j : String) (v : V) (d : Dict V)
      → lookup j (insert k v d) ≡ (if k == j then some v else lookup j d)
  unfolding lookup insert
  lookup-insert k j v [] = refl
  lookup-insert k j v ((i, w) ∷ d) =
      ground (arith, eq_iff k j, eq_iff i k, eq_iff i j, lookup-insert k j v d)

  pub lookup-remove :
      (k j : String) (d : Dict V) → lookup j (remove k d) ≡ (if k == j then none else lookup j d)
  unfolding lookup remove
  lookup-remove k j [] = ground arith
  lookup-remove k j ((i, w) ∷ d) =
      ground (arith, lookup-remove k j d, eq_iff i k, eq_iff i j, eq_iff k j)

  pub get_or-insert :
      (k j : String) (v x : V) (d : Dict V)
      → get_or j x (insert k v d) ≡ (if k == j then v else get_or j x d)
  unfolding get_or
  get_or-insert k j v x d = ground (arith, lookup-insert k j v d)

  pub has_key-lookup :
      (k : String) (d : Dict V) → has_key k d ≡ (elim (lookup k d) [ none ↦ false | some _ ↦ true ])
  unfolding has_key lookup
  has_key-lookup k [] = refl
  has_key-lookup k ((j, w) ∷ d) = ground (arith, has_key-lookup k d)

  -- A write of a present key adds no entry, a write of a new one adds one.
  pub length-insert :
      (k : String) (v : V) (d : Dict V)
      → length (insert k v d) ≡ (if has_key k d then length d else suc (length d))
  unfolding insert has_key
  length-insert k v [] = refl
  length-insert k v ((j, w) ∷ d) = ground (arith, length-insert k v d)

pub ruleset dict_laws = (lookup-insert, lookup-remove)
