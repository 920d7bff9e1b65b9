-- ===== src/Household/Reload.antt =====
-- That the registry, which looks at the time of the file's last change alone, is up to date.
use dotty_stackchan.Prelude.{
  arith, inr, inl, Option-cases, ℕ, String, ◌≡◌, refl, ◌∙◌, ◌≢◌, Option, none, some, List, [], ◌∷◌,
}
use dotty_stackchan.Dict.{Dict}
use dotty_stackchan.Prelude.{if_cases, nat_eq, nat_eq_iff, ◌∙◌, sym, ap, if◌then◌else◌}
use mathlib.Core.Path.{subst}
use dotty_stackchan.Household.Value.{Value, Runtime}
use dotty_stackchan.Household.Person.{Person, parse_person}
use dotty_stackchan.Household.Registry.{
  people_block, document, not_mapping, unreadable, load, File, missing, Sight, found, undecodable,
  reload, seen_at, Registry, put_person, put_people, changed_at, reload_if_changed,
}

abbrev pub or_before : Registry → Option Registry → Registry
or_before r none = r
or_before r (some r') = r'

-- The registry after accesses that meet these files, each of which may raise.
unfoldable pub accesses : Runtime → List Sight → Registry → Registry
unfolding reload_if_changed
accesses t [] r = r
accesses t (sight ∷ sights) r = accesses t sights (or_before r (reload_if_changed t sight r))

-- The last of the files that was there and did not make `_reload` raise.
abbrev pub newest : File → List Sight → File
newest file [] = file
newest file (undecodable mtime ∷ sights) = newest file sights
newest file (found missing ∷ sights) = newest file sights
newest file (found next ∷ sights) = newest next sights

-- The file is missing, or the one that stood there at the time of its last change, which is not zero.
abbrev pub IsAt : (ℕ → Sight) → Sight → Option ℕ → Type 0
IsAt version sight none = Unit
IsAt version sight (some mtime) = (version mtime ≡ sight) × (mtime ≢ 0)

abbrev pub AreVersions : (ℕ → Sight) → List Sight → Type 0
AreVersions version [] = Unit
AreVersions version (sight ∷ sights) =
    IsAt version sight (seen_at sight) × AreVersions version sights

mtime-entry :
    (o : Option Person) (r : Registry)
    → (elim o as (λ o. Registry) [ none ↦ r | some p ↦ put_person p r ]).mtime ≡ r.mtime
unfolding put_person
mtime-entry none r = refl
mtime-entry (some p) r = refl

mtime-put_people :
    (t : Runtime) (entries : List (String × Option (Dict Value))) (r : Registry)
    → (put_people t entries r).mtime ≡ r.mtime
unfolding put_people
mtime-put_people t [] r = refl
mtime-put_people t ((raw_id, entry) ∷ rest) r =
    mtime-put_people t rest _ ∙ mtime-entry (parse_person t raw_id entry) r

-- The time of the last change, or zero.
abbrev IsTime : ℕ → Option ℕ → Type 0
IsTime n none = n ≡ 0
IsTime n (some mtime) = n ≡ mtime

mtime-load : (t : Runtime) (file : File) → IsTime (load t file).mtime (changed_at file)
unfolding load
mtime-load t missing = refl
mtime-load t (unreadable mtime) = refl
mtime-load t (not_mapping mtime) = refl
mtime-load t (document mtime d) = mtime-put_people t (people_block d.people) _

found-inj : (f g : File) → found f ≡ found g → f ≡ g
found-inj f g e = ap (λ s. elim s as (λ _. File) [ found h ↦ h | undecodable m ↦ f ]) e

module _ (version : ℕ → Sight) (t : Runtime) where
  load-same_time :
      (f g : File) (mtime : ℕ)
      → IsAt version (found f) (changed_at f)
      → IsAt version (found g) (some mtime)
      → (load t f).mtime ≡ mtime
      → load t f ≡ load t g
  load-same_time f g mtime h k e = elim (Option-cases (changed_at f)) [
    | inl gone ↦ absurd (k.1 (sym e ∙ subst (IsTime (load t f).mtime) gone (mtime-load t f)))
    | inr (m, there) ↦
        let at = subst (IsAt version (found f)) there h in
        let same = subst (IsTime (load t f).mtime) there (mtime-load t f) in
        ap (load t) (found-inj f g (sym at.0 ∙ ap version (sym same ∙ e) ∙ k.0))
  ]

  load-reload :
      (f g : File) (mtime : ℕ)
      → IsAt version (found f) (changed_at f)
      → IsAt version (found g) (some mtime)
      → or_before
          (load t f)
          (if nat_eq mtime (load t f).mtime then some (load t f) else some (load t g))
        ≡ load t g
  load-reload f g mtime h k =
      if_cases (λ o. or_before (load t f) o ≡ load t g) (nat_eq mtime (load t f).mtime) _ _
        (λ e. load-same_time f g mtime h k (sym ((nat_eq_iff mtime (load t f).mtime).0 e)))
        (λ e. refl)

  -- An access that raises, and one that does not look again, keep the registry.
  load-undecodable :
      (r : Registry) (mtime : ℕ) → or_before r (if nat_eq mtime r.mtime then some r else none) ≡ r
  load-undecodable r mtime = ground arith

  accesses-load :
      (f : File) (sights : List Sight)
      → IsAt version (found f) (changed_at f)
      → AreVersions version sights
      → accesses t sights (load t f) ≡ load t (newest f sights)
  unfolding accesses reload_if_changed reload
  accesses-load f [] h k = refl
  accesses-load f (found missing ∷ sights) h k = accesses-load f sights h k.1
  accesses-load f (undecodable m ∷ sights) h k =
      ap (accesses t sights) (load-undecodable (load t f) m) ∙ accesses-load f sights h k.1
  accesses-load f (found (unreadable m) ∷ sights) h k =
      ap (accesses t sights) (load-reload f (unreadable m) m h k.0)
      ∙ accesses-load (unreadable m) sights k.0 k.1
  accesses-load f (found (not_mapping m) ∷ sights) h k =
      ap (accesses t sights) (load-reload f (not_mapping m) m h k.0)
      ∙ accesses-load (not_mapping m) sights k.0 k.1
  accesses-load f (found (document m d) ∷ sights) h k =
      ap (accesses t sights) (load-reload f (document m d) m h k.0)
      ∙ accesses-load (document m d) sights k.0 k.1

-- Where the time of its last change, which is not zero, determines the file, a registry that was
-- loaded at its start, without a raise, holds after any accesses what the file says: the last one that
-- was there and could be decoded, also while none is there, and after accesses that raise.
pub accesses-newest :
    (t : Runtime) (version : ℕ → Sight) (file : File) (sights : List Sight)
    → AreVersions version (found file ∷ sights)
    → accesses t sights (load t file) ≡ load t (newest file sights)
accesses-newest t version file sights h = accesses-load version t file sights h.0 h.1
