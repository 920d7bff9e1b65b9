-- ===== src/Household/Spelling.antt =====
-- That `strip` and `lower` agree on how an id is spelled.
use mathlib.Core.Path.{ap₂}
use dotty_stackchan.Prelude.{
  strip_idem, Bool-cases, is_blank, inr, ◌∙◌, to_lower, rstrip, inl, lstrip, strip, Char, code,
  String, ◌≡◌, refl, ap, ◌⊎◌, Bool, true, not, ◌&&◌, arith, nat_eq, nat_eq_iff, is_space,
}
use dotty_stackchan.Prelude.Texts.{translate, is_space_code}

-- No character of the text satisfies the test.
abbrev none_of : (Char → Bool) → String → Bool
none_of p String.[] = true
none_of p (String.◌∷◌ c s) = not (p c) && none_of p s

abbrev upper_case : String
upper_case = "ABCDEFGHIJKLMNOPQRSTUVWXYZ"

abbrev lower_case : String
lower_case = "abcdefghijklmnopqrstuvwxyz"

-- Characters with one code are both space or neither.
is_space-code : (a c : Char) → nat_eq (code a) (code c) ≡ true → is_space a ≡ is_space c
unfolding is_space
is_space-code a c e = ap is_space_code ((nat_eq_iff (code a) (code c)).0 e)

is_space-translate :
    (from to : String) (c : Char)
    → none_of is_space from ≡ true
    → none_of is_space to ≡ true
    → is_space (translate from to c) ≡ is_space c
unfolding translate
is_space-translate String.[] to c h k = refl
is_space-translate (String.◌∷◌ a from) String.[] c h k = refl
is_space-translate (String.◌∷◌ a from) (String.◌∷◌ b to) c h k =
    ground (arith, is_space-code a c, is_space-translate from to c)

-- The character is none of the text.
abbrev absent : Char → String → Bool
absent c s = none_of (λ a. nat_eq (code a) (code c)) s

translate-absent : (from to : String) (c : Char) → absent c from ≡ true → translate from to c ≡ c
unfolding translate
translate-absent String.[] to c h = refl
translate-absent (String.◌∷◌ a from) String.[] c h = refl
translate-absent (String.◌∷◌ a from) (String.◌∷◌ b to) c h =
    ground (arith, translate-absent from to c)

-- No character of the second text is one of the first.
abbrev apart : String → String → Bool
apart from String.[] = true
apart from (String.◌∷◌ b to) = absent b from && apart from to

-- A character stays, or becomes one that is none of the first text.
translate-absent_or_same :
    (all from to : String) (c : Char)
    → apart all to ≡ true
    → (translate from to c ≡ c) ⊎ (absent (translate from to c) all ≡ true)
unfolding translate
translate-absent_or_same all String.[] to c h = inl refl
translate-absent_or_same all (String.◌∷◌ a from) String.[] c h = inl refl
translate-absent_or_same all (String.◌∷◌ a from) (String.◌∷◌ b to) c h =
    ground (arith, translate-absent_or_same all from to c)

translate_idem :
    (from to : String) (c : Char)
    → apart from to ≡ true
    → translate from to (translate from to c) ≡ translate from to c
translate_idem from to c h = elim (translate-absent_or_same from from to c h) [
  | inl same ↦ ap (translate from to) same
  | inr gone ↦ translate-absent from to (translate from to c) gone
]

pub to_lower_idem : (s : String) → to_lower (to_lower s) ≡ to_lower s
unfolding to_lower
to_lower_idem String.[] = refl
to_lower_idem (String.◌∷◌ c s) =
    ap₂ (λ d t. String.◌∷◌ d t) (translate_idem upper_case lower_case c refl) (to_lower_idem s)

is_space-lower : (c : Char) → is_space (translate upper_case lower_case c) ≡ is_space c
unfolding is_space
is_space-lower c = is_space-translate upper_case lower_case c refl refl

pub is_blank-to_lower : (s : String) → is_blank (to_lower s) ≡ is_blank s
unfolding to_lower
is_blank-to_lower String.[] = refl
is_blank-to_lower (String.◌∷◌ c s) = refl

lstrip-to_lower : (s : String) → lstrip (to_lower s) ≡ to_lower (lstrip s)
unfolding lstrip to_lower
lstrip-to_lower String.[] = refl
lstrip-to_lower (String.◌∷◌ c s) = elim (Bool-cases (is_space c)) [
  | inl space ↦ rw (is_space-lower c, space) (lstrip-to_lower s)
  | inr other ↦ rw (is_space-lower c, other) refl
]

rstrip-to_lower : (s : String) → rstrip (to_lower s) ≡ to_lower (rstrip s)
unfolding rstrip to_lower
rstrip-to_lower String.[] = refl
rstrip-to_lower (String.◌∷◌ c s) = elim (Bool-cases (is_space c && is_blank (rstrip s))) [
  | inl gone ↦ rw (is_space-lower c, rstrip-to_lower s, is_blank-to_lower (rstrip s), gone) refl
  | inr kept ↦ rw (is_space-lower c, rstrip-to_lower s, is_blank-to_lower (rstrip s), kept) refl
]

-- The id of an entry is stripped and in lower case, whatever its key.
pub strip-to_lower : (s : String) → strip (to_lower (strip s)) ≡ to_lower (strip s)
unfolding strip
strip-to_lower s =
    ap rstrip (lstrip-to_lower (strip s))
    ∙ rstrip-to_lower (lstrip (strip s))
    ∙ ap to_lower (strip_idem s)
