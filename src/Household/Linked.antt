-- ===== src/Household/Linked.antt =====
-- That a loaded household holds together: ids as `_parse_person` spells them, and no phrase or prefix
-- of someone who is not a member.
use dotty_stackchan.Prelude.{
  String, ◌≡◌, refl, true, false, ◌||◌, Option, none, some, List, [], ◌∷◌, ◌++◌, arith, ◌==◌,
  eq_iff, eq_refl, is_blank, strip, to_lower,
}
use dotty_stackchan.Dict.{Dict, lookup, insert, has_key, lookup-insert, has_key-lookup}
use dotty_stackchan.Household.Value.{Value, Runtime, normalise_calendar_prefix}
use dotty_stackchan.Household.Person.{Person, parse_person, person_of}
use dotty_stackchan.Household.Registry.{
  missing, or_fallback, empty_registry, put_prefix, people_block, document, not_mapping, unreadable,
  File, longest_first, phrases_of, load, put_person, put_people, place, Registry,
}
use dotty_stackchan.Household.Spelling.{to_lower_idem, strip-to_lower}

-- An id as it stands in the registry.
pub record IsId (id : String) : Type 0 where
  pub lower : to_lower id ≡ id
  pub bare : strip id ≡ id
  pub present : is_blank id ≡ false

-- Every phrase belongs to a member.
abbrev pub AreOwned : Dict Person → List (String × String) → Type 0
AreOwned people [] = Unit
AreOwned people ((phrase, id) ∷ pairs) = (has_key id people ≡ true) × AreOwned people pairs

pub record IsLinked (r : Registry) : Type 0 where
  pub ids : (k : String) (p : Person) → lookup k r.people ≡ some p → (p.id ≡ k) × IsId k
  pub owned : AreOwned r.people r.self_id
  pub known : (key id : String) → lookup key r.by_prefix ≡ some id → has_key id r.people ≡ true

IsId-parse_person :
    (t : Runtime) (raw_id : String) (entry : Option (Dict Value)) (p : Person)
    → parse_person t raw_id entry ≡ some p
    → IsId p.id
unfolding parse_person person_of
IsId-parse_person t raw_id none p h = absurd (ground arith)
IsId-parse_person t raw_id (some entry) p h =
    ground (arith, to_lower_idem (strip raw_id), strip-to_lower raw_id)

has_key-insert :
    (k j : String) (p : Person) (d : Dict Person)
    → has_key j (insert k p d) ≡ (k == j || has_key j d)
has_key-insert k j p d =
    ground (arith, has_key-lookup j (insert k p d), has_key-lookup j d, lookup-insert k j p d)

AreOwned-insert :
    (k : String) (p : Person) (d : Dict Person) (pairs : List (String × String))
    → AreOwned d pairs
    → AreOwned (insert k p d) pairs
AreOwned-insert k p d [] h = tt
AreOwned-insert k p d ((phrase, id) ∷ pairs) h =
    (ground (arith, has_key-insert k id p d), AreOwned-insert k p d pairs h.1)

AreOwned-append :
    (d : Dict Person) (xs ys : List (String × String))
    → AreOwned d xs
    → AreOwned d ys
    → AreOwned d (xs ++ ys)
AreOwned-append d [] ys h k = k
AreOwned-append d ((phrase, id) ∷ xs) ys h k = (h.0, AreOwned-append d xs ys h.1 k)

AreOwned-phrases_of :
    (d : Dict Person) (id : String) (phrases : List String)
    → has_key id d ≡ true
    → AreOwned d (phrases_of id phrases)
unfolding phrases_of
AreOwned-phrases_of d id [] h = tt
AreOwned-phrases_of d id (phrase ∷ phrases) h = ground (arith, AreOwned-phrases_of d id phrases h)

AreOwned-place :
    (d : Dict Person) (pair : String × String) (pairs : List (String × String))
    → has_key pair.1 d ≡ true
    → AreOwned d pairs
    → AreOwned d (place pair pairs)
unfolding place
AreOwned-place d pair [] h k = (h, tt)
AreOwned-place d pair (other ∷ rest) h k = ground (arith, AreOwned-place d pair rest h k.1)

AreOwned-longest_first :
    (d : Dict Person) (pairs : List (String × String))
    → AreOwned d pairs
    → AreOwned d (longest_first pairs)
unfolding longest_first
AreOwned-longest_first d [] h = tt
AreOwned-longest_first d (pair ∷ pairs) h =
    AreOwned-place d pair (longest_first pairs) h.0 (AreOwned-longest_first d pairs h.1)

known-put_prefix :
    (r : Registry) (p : Person) (prefix : Option String) (key id : String)
    → IsLinked r
    → lookup key (put_prefix p.id prefix r.by_prefix) ≡ some id
    → has_key id (insert p.id p r.people) ≡ true
known-put_prefix r p none key id h e =
    ground (arith, has_key-insert p.id id p r.people, h.known key id e)
known-put_prefix r p (some prefix) key id h e = ground (
  arith,
  has_key-insert p.id id p r.people,
  h.known key id,
  lookup-insert (normalise_calendar_prefix prefix) key p.id r.by_prefix,
  eq_iff p.id id,
)

IsLinked-put_person :
    (p : Person) (r : Registry) → IsId p.id → IsLinked r → IsLinked (put_person p r)
unfolding put_person
IsLinked-put_person p r i h = record {
  ids = λ k q e. ground (arith, lookup-insert p.id k p r.people, h.ids k q, eq_iff p.id k, i);
  owned =
      AreOwned-append (insert p.id p r.people) r.self_id (phrases_of p.id p.self_id_phrases)
        (AreOwned-insert p.id p r.people r.self_id h.owned)
        (AreOwned-phrases_of (insert p.id p r.people) p.id p.self_id_phrases
          (ground (arith, has_key-insert p.id p.id p r.people, eq_refl p.id)));
  known = λ key id e. known-put_prefix r p p.calendar_prefix key id h e;
}

IsLinked-entry :
    (o : Option Person) (r : Registry)
    → ((p : Person) → o ≡ some p → IsId p.id)
    → IsLinked r
    → IsLinked (elim o [ none ↦ r | some p ↦ put_person p r ])
IsLinked-entry none r i h = h
IsLinked-entry (some p) r i h = IsLinked-put_person p r (i p refl) h

IsLinked-put_people :
    (t : Runtime) (entries : List (String × Option (Dict Value))) (r : Registry)
    → IsLinked r
    → IsLinked (put_people t entries r)
unfolding put_people
IsLinked-put_people t [] r h = h
IsLinked-put_people t ((raw_id, entry) ∷ rest) r h =
    IsLinked-put_people t rest _
      (IsLinked-entry (parse_person t raw_id entry) r (IsId-parse_person t raw_id entry) h)

IsLinked-nobody : (r : Registry) → r.people ≡ [] → r.by_prefix ≡ [] → r.self_id ≡ [] → IsLinked r
unfolding lookup
IsLinked-nobody r nobody no_prefixes no_phrases = record {
  ids = λ k p e. absurd (ground (arith, nobody));
  owned = ground (arith, no_phrases);
  known = λ key id e. absurd (ground (arith, no_prefixes));
}

-- Whatever the file holds, the registry that is loaded from it links every phrase and every prefix to
-- a member, and has its members under their own ids, which are stripped and in lower case.
pub load-IsLinked : (t : Runtime) (file : File) → IsLinked (load t file)
unfolding load
load-IsLinked t missing = IsLinked-nobody _ refl refl refl
load-IsLinked t (unreadable mtime) = IsLinked-nobody _ refl refl refl
load-IsLinked t (not_mapping mtime) = IsLinked-nobody _ refl refl refl
load-IsLinked t (document mtime d) =
    let r =
      put_people t (people_block d.people)
        (record (empty_registry mtime) { default_person = or_fallback d.default_person }) in
    let h = IsLinked-put_people t (people_block d.people) _ (IsLinked-nobody _ refl refl refl) in
    record {
      ids = h.ids;
      owned = AreOwned-longest_first r.people r.self_id h.owned;
      known = h.known;
    }
