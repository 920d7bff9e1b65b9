-- ===== src/Activity/Limits.antt =====
-- The bounds of the activity store and of the payloads of bridge/activity.py.
use dotty_stackchan.Prelude.{
  text_length, ℕ, zero, suc, ◌≤◌, String, ◌≡◌, inl, inr, false, Option, none, some, [], ◌∷◌, arith,
  ◌==◌, leb, Bool-cases, length, take_chars,
}
use dotty_stackchan.Dict.{Dict, insert, length-insert}
use dotty_stackchan.Perception.Types.{Value, null, bool, num, text, other}
use dotty_stackchan.Activity.Envelope.{
  Field, plain, mapping, max_event_data_fields, max_event_value_chars,
}
use dotty_stackchan.Activity.Payload.{
  safe_value, put_field, keep_field, keep_fields, is_opaque, safe_event_data,
}

pub length-take_chars : (n : ℕ) (s : String) → text_length (take_chars n s) ≤ n
unfolding take_chars
length-take_chars zero s = omega arith
length-take_chars (suc n) String.[] = omega arith
length-take_chars (suc n) (String.◌∷◌ c s) = omega (arith, length-take_chars n s)

-- A kept value is a scalar, and a text among them is short.
abbrev pub IsCompact : Value → Type 0
IsCompact (text s) = text_length s ≤ max_event_value_chars
IsCompact (other b) = ⊥
IsCompact v = Unit

-- Every field has a short key without a marker, and a compact value.
abbrev pub IsSafe : Dict Value → Type 0
IsSafe [] = Unit
IsSafe ((k, v) ∷ d) = (text_length k ≤ 64) × (is_opaque k ≡ false) × IsCompact v × IsSafe d

IsSafe-insert :
    (k : String) (v : Value) (d : Dict Value)
    → text_length k ≤ 64
    → is_opaque k ≡ false
    → IsCompact v
    → IsSafe d
    → IsSafe (insert k v d)
unfolding insert
IsSafe-insert k v [] short clear compact h = (short, clear, compact, tt)
IsSafe-insert k v ((j, w) ∷ d) short clear compact h = elim (Bool-cases (j == k)) [
  | inl same ↦ rw same (h.0, h.1, compact, h.3)
  | inr other_key ↦ rw other_key (h.0, h.1, h.2, IsSafe-insert k v d short clear compact h.3)
]

IsSafe-put_field :
    (k : String) (v : Value) (d : Dict Value)
    → text_length k ≤ 64
    → is_opaque k ≡ false
    → IsSafe d
    → IsSafe (put_field k (safe_value v) d)
unfolding safe_value
IsSafe-put_field k (text s) d short clear h =
    IsSafe-insert k (text (take_chars max_event_value_chars s)) d short clear
      (length-take_chars max_event_value_chars s) h
IsSafe-put_field k (other b) d short clear h = h
IsSafe-put_field k null d short clear h = IsSafe-insert k null d short clear tt h
IsSafe-put_field k (bool b) d short clear h = IsSafe-insert k (bool b) d short clear tt h
IsSafe-put_field k (num n) d short clear h = IsSafe-insert k (num n) d short clear tt h

IsSafe-keep_field :
    (k : String) (v : Value) (d : Dict Value)
    → text_length k ≤ 64
    → IsSafe d
    → IsSafe (keep_field k v d)
unfolding keep_field
IsSafe-keep_field k v d short h = elim (Bool-cases (is_opaque k)) [
  | inl opaque ↦ rw opaque h
  | inr clear ↦ rw clear (IsSafe-put_field k v d short clear h)
]

IsSafe-keep_fields : (safe d : Dict Value) → IsSafe safe → IsSafe (keep_fields safe d)
unfolding keep_fields
IsSafe-keep_fields safe [] h = h
IsSafe-keep_fields safe ((k, v) ∷ d) h =
    elim (Bool-cases (leb max_event_data_fields (length safe))) [
      | inl full ↦ rw full h
      | inr room ↦ rw room (
          IsSafe-keep_fields (keep_field (take_chars 64 k) v safe) d
            (IsSafe-keep_field (take_chars 64 k) v safe (length-take_chars 64 k) h))
    ]

length-put_field :
    (k : String) (v : Option Value) (d : Dict Value) → length (put_field k v d) ≤ suc (length d)
length-put_field k none d = omega arith
length-put_field k (some v) d = ground (arith, length-insert k v d)

length-keep_field :
    (k : String) (v : Value) (d : Dict Value) → length (keep_field k v d) ≤ suc (length d)
unfolding keep_field
length-keep_field k v d = ground (arith, length-put_field k (safe_value v) d)

length-keep_fields :
    (safe d : Dict Value)
    → length safe ≤ max_event_data_fields
    → length (keep_fields safe d) ≤ max_event_data_fields
unfolding keep_fields
length-keep_fields safe [] h = h
length-keep_fields safe ((k, v) ∷ d) h =
    elim (Bool-cases (leb max_event_data_fields (length safe))) [
      | inl full ↦ rw full h
      | inr room ↦ rw room (
          length-keep_fields (keep_field (take_chars 64 k) v safe) d
            (ground (arith, length-keep_field (take_chars 64 k) v safe)))
    ]

-- What an event shows on the dashboard, whatever a producer sends: at most 16 fields, whose keys
-- have at most 64 characters and none of the markers of opaque or secret data, and whose values are
-- scalars, a text among them of at most 200 characters.
pub safe_event_data-IsSafe :
    (f : Option Field)
    → IsSafe (safe_event_data f) × (length (safe_event_data f) ≤ max_event_data_fields)
unfolding safe_event_data
safe_event_data-IsSafe none = (tt, omega arith)
safe_event_data-IsSafe (some (plain v)) = (tt, omega arith)
safe_event_data-IsSafe (some (mapping d)) =
    (IsSafe-keep_fields [] d tt, length-keep_fields [] d (omega arith))
