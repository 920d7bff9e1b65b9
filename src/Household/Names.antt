-- ===== src/Household/Names.antt =====
-- Whom a name refers to, and that nobody but a member is ever seen.
use dotty_stackchan.Prelude.{
  ℕ, String, ◌≡◌, refl, sym, ap, ◌∙◌, ◌⊎◌, inl, inr, false, Option, none, some, List, [], ◌∷◌, ◌++◌,
  arith, ◌==◌, eq_iff, if◌then◌else◌, Option-cases, is_blank, strip, strip-nil, to_lower,
}
use dotty_stackchan.Dict.{Dict, lookup, lookup-insert}
use dotty_stackchan.Household.Value.{Value, Runtime}
use dotty_stackchan.Household.Person.{Person, parse_person, person_of}
use dotty_stackchan.Household.Registry.{
  File, document, Document, empty_registry, or_fallback, put_person, put_people, Registry, load,
  get, members,
}
use dotty_stackchan.Household.Resolver.{
  fold, drop_trailing, resolve, by_display_name, resolve_vlm_name,
}
use dotty_stackchan.Household.RoomView.{Groups, view_of, parse_room_view_response}
use dotty_stackchan.Household.Spelling.{is_blank-to_lower}
use dotty_stackchan.Household.Linked.{IsLinked, load-IsLinked}

is_blank-strip : (s : String) → is_blank (strip s) ≡ false → is_blank s ≡ false
is_blank-strip String.[] h = sym (ap is_blank strip-nil) ∙ h
is_blank-strip (String.◌∷◌ c s) h = refl

abbrev Entry : Type 0
Entry = String × Option (Dict Value)

-- No entry has a key that is spelled like `id`, but one that is left out.
abbrev pub AreOthers : Runtime → String → List Entry → Type 0
AreOthers t id [] = Unit
AreOthers t id ((raw_id, entry) ∷ entries) =
    ((parse_person t raw_id entry ≡ none) ⊎ ((to_lower (strip raw_id) == id) ≡ false))
    × AreOthers t id entries

id-parse_person :
    (t : Runtime) (raw_id : String) (entry : Option (Dict Value)) (p : Person)
    → parse_person t raw_id entry ≡ some p
    → p.id ≡ to_lower (strip raw_id)
unfolding parse_person person_of
id-parse_person t raw_id none p h = absurd (ground arith)
id-parse_person t raw_id (some entry) p h = ground arith

put_people-append :
    (t : Runtime) (xs ys : List Entry) (r : Registry)
    → put_people t (xs ++ ys) r ≡ put_people t ys (put_people t xs r)
unfolding put_people
put_people-append t [] ys r = refl
put_people-append t ((raw_id, entry) ∷ xs) ys r = put_people-append t xs ys _

lookup-put_person :
    (id : String) (p : Person) (r : Registry)
    → lookup id (put_person p r).people ≡ (if p.id == id then some p else lookup id r.people)
unfolding put_person
lookup-put_person id p r = lookup-insert p.id id p r.people

abbrev put_parsed : Option Person → Registry → Registry
put_parsed o r = elim o [ none ↦ r | some p ↦ put_person p r ]

lookup-put_parsed :
    (id : String) (o : Option Person) (r : Registry)
    → ((p : Person) → o ≡ some p → (p.id == id) ≡ false)
    → lookup id (put_parsed o r).people ≡ lookup id r.people
lookup-put_parsed id none r h = refl
lookup-put_parsed id (some p) r h = rw (lookup-put_person id p r, h p refl) refl

lookup-put_people :
    (t : Runtime) (id : String) (entries : List Entry) (r : Registry)
    → AreOthers t id entries
    → lookup id (put_people t entries r).people ≡ lookup id r.people
unfolding put_people
lookup-put_people t id [] r h = refl
lookup-put_people t id ((raw_id, entry) ∷ entries) r (other, h) =
    lookup-put_people t id entries (put_parsed (parse_person t raw_id entry) r) h
    ∙ lookup-put_parsed id (parse_person t raw_id entry) r (λ p e. elim other [
      | inl out ↦ absurd (ground (arith, e, out))
      | inr unlike ↦ ground (arith, unlike, id-parse_person t raw_id entry p e)
    ])

-- The family with an entry between others.
abbrev pub with_entry : Option String → List Entry → Entry → List Entry → Document
with_entry default_person before entry after = record {
  default_person = default_person;
  people = some (before ++ entry ∷ after);
}

lookup-load :
    (t : Runtime) (mtime : ℕ) (default_person : Option String) (before after : List Entry)
    (raw_id : String) (entry : Option (Dict Value)) (p : Person)
    → parse_person t raw_id entry ≡ some p
    → AreOthers t (to_lower (strip raw_id)) after
    → lookup
        (to_lower (strip raw_id))
        (load t (document mtime (with_entry default_person before (raw_id, entry) after))).people
      ≡ some p
unfolding load put_people
lookup-load t mtime default_person before after raw_id entry p parsed others =
    let start = record (empty_registry mtime) { default_person = or_fallback default_person } in
    let r = put_people t before start in
    ap (λ x. lookup (to_lower (strip raw_id)) x.people)
      (put_people-append t before ((raw_id, entry) ∷ after) start)
    ∙ lookup-put_people t (to_lower (strip raw_id)) after
        (put_parsed (parse_person t raw_id entry) r) others
    ∙ ap (λ o. lookup (to_lower (strip raw_id)) (put_parsed o r).people) parsed
    ∙ lookup-put_person (to_lower (strip raw_id)) p r
    ∙ ground (arith, eq_iff p.id (to_lower (strip raw_id)), id-parse_person t raw_id entry p parsed)

-- An entry of the file that is taken as a member, and that no later member's key repeats, resolves by
-- any spelling of its key that differs in case and in white space around it, unless that is the
-- reserved `unknown`: whatever else the file holds, the member found is the one of the entry.
pub resolve-load :
    (t : Runtime) (mtime : ℕ) (default_person : Option String) (before after : List Entry)
    (raw_id : String) (entry : Option (Dict Value)) (p : Person) (identity : String)
    → parse_person t raw_id entry ≡ some p
    → AreOthers t (to_lower (strip raw_id)) after
    → to_lower (strip identity) ≡ to_lower (strip raw_id)
    → (to_lower (strip raw_id) == "unknown") ≡ false
    → resolve
        (load t (document mtime (with_entry default_person before (raw_id, entry) after)))
        identity
      ≡ some p
unfolding resolve get
resolve-load t mtime default_person before after raw_id entry p identity parsed others same known =
    let file = document mtime (with_entry default_person before (raw_id, entry) after) in
    let found : lookup (to_lower (strip identity)) (load t file).people ≡ some p =
      rw same (lookup-load t mtime default_person before after raw_id entry p parsed others) in
    let id = (load-IsLinked t file).ids (to_lower (strip identity)) p found in
    ground (
      arith,
      found,
      same,
      known,
      id.1.present,
      is_blank-to_lower (strip identity),
      strip-nil,
      is_blank-strip identity,
    )

abbrev pub Has : Person → List Person → Type 0
Has p [] = ⊥
Has p (q ∷ qs) = (p ≡ q) ⊎ Has p qs

Has-lookup : (k : String) (p : Person) (d : Dict Person) → lookup k d ≡ some p → Has p (members d)
unfolding lookup members
Has-lookup k p [] e = absurd (ground arith)
Has-lookup k p ((j, q) ∷ d) e = ground (arith, Has-lookup k p d)

Has-by_display_name :
    (folded : String) (p : Person) (ps : List Person)
    → by_display_name folded ps ≡ some p
    → Has p ps × (fold p.display_name ≡ folded)
unfolding by_display_name
Has-by_display_name folded p [] e = absurd (ground arith)
Has-by_display_name folded p (q ∷ qs) e =
    ground (arith, Has-by_display_name folded p qs, eq_iff (fold q.display_name) folded)

-- The name, without the punctuation at its end and without regard to case, is the id or the display
-- name of the person.
abbrev pub Names : String → Person → Type 0
Names name p =
    (p.id ≡ to_lower (strip (fold (drop_trailing name))))
    ⊎ (fold p.display_name ≡ fold (drop_trailing name))

Has-resolve :
    (r : Registry) (identity : String) (p : Person)
    → IsLinked r
    → resolve r identity ≡ some p
    → Has p (members r.people) × (p.id ≡ to_lower (strip identity))
unfolding resolve get
Has-resolve r identity p h e =
    ground (
      arith,
      Has-lookup (to_lower (strip identity)) p r.people,
      h.ids (to_lower (strip identity)) p,
    )

Has-resolve_vlm_name :
    (r : Registry) (name : String) (p : Person)
    → IsLinked r
    → resolve_vlm_name r name ≡ some p
    → Has p (members r.people) × Names name p
unfolding resolve_vlm_name
Has-resolve_vlm_name r name p h e = ground (
  arith,
  Has-resolve r (fold (drop_trailing name)) p h,
  Has-by_display_name (fold (drop_trailing name)) p (members r.people),
)

-- The person of the reply's name.
abbrev pub IsSeen : (String → Option Groups) → Registry → String → String → Type 0
IsSeen match r raw id =
    (p : Person) × (p.id ≡ id)
    × Has p (members r.people)
    × ((groups : Groups) × (match (strip raw) ≡ some groups) × Names (strip groups.1) p)

person_id-view_of :
    (r : Registry) (groups : Groups) (id : String)
    → IsLinked r
    → (view_of r groups).person_id ≡ some id
    → (p : Person) × (p.id ≡ id) × Has p (members r.people) × Names (strip groups.1) p
unfolding view_of
person_id-view_of r (desc, name, mood) id h e =
    elim (Option-cases (resolve_vlm_name r (strip name))) [
      | inl nobody ↦ absurd (ground (arith, nobody))
      | inr (p, found) ↦
          let (has, names) = Has-resolve_vlm_name r (strip name) p h found in
          (p, ground (arith, found), has, names)
    ]

-- Whatever a picture's description says, and whatever the household's file holds, a person is seen
-- only where the description has the form asked for, and then it is a member of the household whose id
-- or display name the description gives.
pub parse_room_view_response-IsSeen :
    (t : Runtime) (file : File) (match : String → Option Groups) (raw id : String)
    → (parse_room_view_response match (load t file) raw).person_id ≡ some id
    → IsSeen match (load t file) raw id
unfolding parse_room_view_response
parse_room_view_response-IsSeen t file match raw id e = elim (Option-cases (match (strip raw))) [
  | inl other ↦ absurd (ground (arith, other))
  | inr (groups, form) ↦
      let (p, same, has, names) =
        person_id-view_of (load t file) groups id (load-IsLinked t file) (ground (arith, form)) in
      (p, same, has, (groups, form, names))
]
