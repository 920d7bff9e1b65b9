-- ===== src/Perception/Faces.antt =====
-- Whose face a device last knew, against the history of its events.
use mathlib.Core.Path.{subst}
use dotty_stackchan.Prelude.{
  strip-nil, ◌∙◌, ap, inr, inl, Bool-cases, strip_idem, strip, ◌+◌, ltb, nat_eq, ◌||◌, ℕ, String,
  ◌≡◌, refl, Bool, true, false, Option, none, some, List, [], ◌∷◌, arith, ◌==◌, if◌then◌else◌,
  is_blank,
}
use dotty_stackchan.Dict.{get_or, lookup}
use dotty_stackchan.Perception.Types.{init, Value, or_zero, Event, Device, Limits}
use dotty_stackchan.Perception.Update.{
  get_fresh_face_id, stripped_or_empty, stripped_text, update_device, Kind, kind_of, apply_event,
}
use dotty_stackchan.Perception.Bus.{feed}
use dotty_stackchan.Perception.Ring.{from_device}
use dotty_stackchan.Perception.History.{or_else, latest, latest-feed}

-- The identity and the time that an event reports.
abbrev identity_at : Option String → ℕ → Option (Option String × Option ℕ)
identity_at none ts = none
identity_at (some s) ts = if is_blank s then none else some (some s, some ts)

abbrev pub recognition : Kind → Event → Option (Option String × Option ℕ)
recognition Kind.face_recognized e = identity_at (stripped_text (lookup "identity" e.payload)) e.ts
recognition _ e = none

abbrev pub says_face : Event → Option (Option String × Option ℕ)
says_face e = recognition (kind_of e.name) e

abbrev known_face : Device → Option String × Option ℕ
known_face d = (d.last_face_id, d.last_face_recognized_t)

face_apply :
    (k : Kind) (e : Event) (d : Device)
    → known_face (apply_event k e.payload e.ts d).0 ≡ or_else (known_face d) (recognition k e)
unfolding apply_event
face_apply Kind.face_recognized e d = ground arith
face_apply Kind.state_changed e d = ground arith
face_apply _ e d = refl

face_update :
    (e : Event) (d : Device)
    → known_face (update_device e.name e.payload e.ts d).0 ≡ or_else (known_face d) (says_face e)
unfolding update_device
face_update e d =
    face_apply (kind_of e.name) e
      (record d { last_event_t = some e.ts; last_event_name = some e.name })

-- A face that was recognised `now - t` ticks ago is fresh up to an age of `ttl`.
abbrev pub fresh_face : ℕ → ℕ → Option String × Option ℕ → Option String
fresh_face ttl now (some identity, some t) =
    if identity == "unknown" || nat_eq t 0 || ltb (t + ttl) now then none else some identity
fresh_face ttl now _ = none

-- The body of `get_fresh_face_id` on the two keys that it reads.
abbrev fresh_of : ℕ → ℕ → Option String × Option ℕ → Option String
fresh_of ttl now (id, t) =
    let identity = stripped_or_empty id in
    let last_t = or_zero t in
    if is_blank identity || identity == "unknown"
    then none
    else if nat_eq last_t 0
    then none
    else if ltb (last_t + ttl) now
    then none
    else some identity

-- What the two keys hold: nothing, or a stripped text that is not empty.
abbrev IsKnown : Option String × Option ℕ → Type 0
IsKnown (none, none) = Unit
IsKnown (some s, some t) = (strip s ≡ s) × (is_blank s ≡ false)
IsKnown _ = ⊥

stripped_text-strip : (v : Option Value) (s : String) → stripped_text v ≡ some s → strip s ≡ s
unfolding stripped_text
stripped_text-strip (some (Value.text t)) s h = ground (arith, strip_idem t)
stripped_text-strip (some (Value.num n)) s h = ground (arith, strip-nil)
stripped_text-strip (some (Value.bool b)) s h = ground (arith, strip-nil)
stripped_text-strip (some (Value.other b)) s h = ground (arith, strip-nil)
stripped_text-strip _ s h = ground (arith, strip-nil)

identity_at-IsKnown :
    (v : Option String) (ts : ℕ) (x : Option String × Option ℕ)
    → ((s : String) → v ≡ some s → strip s ≡ s)
    → identity_at v ts ≡ some x
    → IsKnown x
identity_at-IsKnown none ts x hs h = cc
identity_at-IsKnown (some s) ts x hs h = elim (Bool-cases (is_blank s)) [
  | inl blank ↦ absurd (ground arith)
  | inr full ↦
      let e : ◌≡◌ {A = Option String × Option ℕ} (some s, some ts) x = ground arith in
      subst IsKnown e (hs s refl, full)
]

recognition-IsKnown :
    (k : Kind) (e : Event) (x : Option String × Option ℕ) → recognition k e ≡ some x → IsKnown x
recognition-IsKnown Kind.face_recognized e x h =
    identity_at-IsKnown (stripped_text (lookup "identity" e.payload)) e.ts x
      (stripped_text-strip (lookup "identity" e.payload)) h
recognition-IsKnown _ e x h = cc

IsKnown-if :
    (b : Bool) (x y : Option String × Option ℕ)
    → IsKnown x
    → IsKnown y
    → IsKnown (if b then x else y)
IsKnown-if true x y hx hy = hx
IsKnown-if false x y hx hy = hy

latest-IsKnown :
    (id : String) (es : List Event) (before : Option String × Option ℕ)
    → IsKnown before
    → IsKnown (latest says_face id es before)
latest-IsKnown id [] before h = h
latest-IsKnown id (e ∷ es) before h = latest-IsKnown id es _ (step (says_face e) refl)
  where
    step :
        (o : Option (Option String × Option ℕ))
        → says_face e ≡ o
        → IsKnown (if from_device id e then or_else before o else before)
    step none p = IsKnown-if (from_device id e) before before h h
    step (some x) p =
        IsKnown-if (from_device id e) x before (recognition-IsKnown (kind_of e.name) e x p) h

fresh_of-fresh_face :
    (ttl now : ℕ) (k : Option String × Option ℕ)
    → IsKnown k
    → fresh_of ttl now k ≡ fresh_face ttl now k
fresh_of-fresh_face ttl now (none, none) h = refl
fresh_of-fresh_face ttl now (some s, some t) h = rw (h.0, h.1) (ground arith)
fresh_of-fresh_face ttl now (none, some t) h = absurd h
fresh_of-fresh_face ttl now (some s, none) h = absurd h

-- After any events, lost faces and malformed ones included, the fresh identity of a device is the
-- one of its newest well-formed `face_recognized`, unless that is `unknown`, has the time 0, or is
-- older than `ttl`.
pub get_fresh_face_id-feed :
    (l : Limits) (es : List Event) (id : String) (ttl now : ℕ)
    → get_fresh_face_id id ttl now (feed l es init)
      ≡ fresh_face ttl now (latest says_face id es (none, none))
unfolding get_fresh_face_id get_or lookup
get_fresh_face_id-feed l es id ttl now =
    ap (fresh_of ttl now) (latest-feed known_face says_face face_update l es init id)
    ∙ fresh_of-fresh_face ttl now _ (latest-IsKnown id es (none, none) tt)
