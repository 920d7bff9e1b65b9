-- ===== src/Activity/Duplicates.antt =====
-- What `ActivityStore.ingest` of bridge/activity.py does with an envelope that comes again.
use dotty_stackchan.Prelude.{
  ℕ, suc, ◌+◌, ◌*◌, ◌≤◌, ◌<◌, max, String, ◌≡◌, refl, sym, ap, ◌∙◌, ◌≢◌, inl, inr, true, Option,
  none, some, List, [], ◌∷◌, arith, Bool-cases, length, append,
}
use mathlib.Core.Path.{subst}
use dotty_stackchan.Activity.Envelope.{Disk, Envelope, EnvelopeKind, Python, turn, event}
use dotty_stackchan.Activity.Store.{
  Store, new_store, remember, member, seen_max, ingest, ingest_turn, take_turn, ingest_new,
  with_memory, event_of, duplicate, Ingested, publish, broadcast_item, persist_turn_once,
  persist_end, announce, Item, snapshot,
}
use dotty_stackchan.Activity.Seen.{
  IsConsistent, remember-IsConsistent, IsYoung, IsYoung-remember, IsYoung-new, IsYoung-member,
}

-- Envelopes in the order in which they come, each with how writing to the log ends then.
unfoldable pub ingest_all : Python → List (Disk × Envelope) → Store → Store
ingest_all py [] s = s
ingest_all py ((disk, e) ∷ es) s = ingest_all py es (ingest py disk e s).0

-- The memory of identities.
abbrev pub memory : Store → List String × List String
memory s = (s.seen_order, s.seen)

-- The parts of the store that an envelope's turn leaves alone.
abbrev kept : Store → ℕ × (List String × List String)
kept s = (s.max_items, memory s)

-- What holds after the item is stored, and after it is logged and sent, holds after both.
pub announce_lem :
    {P : Store → Type 0} (i : Item) (stored : Store) (o : Option Store)
    → P stored
    → ((s : Store) → o ≡ some s → P s)
    → ((s : Store) → P s → P (broadcast_item i s))
    → P (announce i stored o).0
unfolding announce
announce_lem i stored none a b c = a
announce_lem i stored (some s) a b c = c s (b s refl)

kept-ingest_turn :
    (py : Python) (disk : Disk) (e : Envelope) (s : Store)
    → kept (ingest_turn py disk e s).0 ≡ kept s
unfolding ingest_turn take_turn publish broadcast_item persist_end persist_turn_once announce
kept-ingest_turn py disk e s = ground arith

kept-ingest_new :
    (py : Python) (disk : Disk) (e : Envelope) (s : Store)
    → kept (ingest_new py disk e s).0 ≡ kept s
unfolding ingest_new publish broadcast_item
kept-ingest_new py disk e s = by_kind e.kind
  where
    by_kind :
        (k : EnvelopeKind)
        → kept
            (elim k as (λ _. Store × Ingested) [
              | turn ↦ ingest_turn py disk e s
              | event ↦ (
                broadcast_item
                    (event_of py e)
                    (publish (append "event:" e.event_id) (event_of py e) s),
                snapshot (event_of py e),
              )
            ]).0
          ≡ kept s
    by_kind turn = kept-ingest_turn py disk e s
    by_kind event = refl

-- However an envelope fares, the memory takes its identity in, and nothing else.
pub kept-ingest :
    (py : Python) (disk : Disk) (e : Envelope) (s : Store)
    → kept (ingest py disk e s).0 ≡ (s.max_items, (remember (seen_max s) e.event_id (memory s)).0)
unfolding ingest
kept-ingest py disk e s = elim (Bool-cases (remember (seen_max s) e.event_id (memory s)).1) [
  | inl new ↦
      rw new
        (kept-ingest_new py disk e (with_memory (remember (seen_max s) e.event_id (memory s)) s))
  | inr old ↦ rw old refl
]

ingest-old :
    (py : Python) (disk : Disk) (e : Envelope) (s : Store)
    → member e.event_id s.seen ≡ true
    → ingest py disk e s ≡ (s, duplicate)
unfolding ingest remember
ingest-old py disk e s old = rw old refl

-- The memory is consistent, and has places.
abbrev pub IsSound : Store → Type 0
IsSound s = (0 < s.max_items) × IsConsistent (seen_max s) (memory s)

IsSound-ingest :
    (py : Python) (disk : Disk) (e : Envelope) (s : Store)
    → IsSound s
    → IsSound (ingest py disk e s).0
IsSound-ingest py disk e s (positive, h) =
    subst (λ k. (0 < k.0) × IsConsistent (k.0 * 5) k.1) (sym (kept-ingest py disk e s))
      (positive, remember-IsConsistent (seen_max s) e.event_id s.seen_order s.seen (omega arith) h)

IsSound-ingest_all :
    (py : Python) (es : List (Disk × Envelope)) (s : Store)
    → IsSound s
    → IsSound (ingest_all py es s)
unfolding ingest_all
IsSound-ingest_all py [] s h = h
IsSound-ingest_all py ((disk, e) ∷ es) s h =
    IsSound-ingest_all py es (ingest py disk e s).0 (IsSound-ingest py disk e s h)

max_items-ingest_all :
    (py : Python) (es : List (Disk × Envelope)) (s : Store)
    → (ingest_all py es s).max_items ≡ s.max_items
unfolding ingest_all
max_items-ingest_all py [] s = refl
max_items-ingest_all py ((disk, e) ∷ es) s =
    max_items-ingest_all py es (ingest py disk e s).0 ∙ ap (λ k. k.0) (kept-ingest py disk e s)

IsYoung-ingest_all :
    (py : Python) (id : String) (k : ℕ) (es : List (Disk × Envelope)) (s : Store)
    → suc (k + length es) ≤ seen_max s
    → IsYoung k id s.seen_order
    → IsYoung (k + length es) id (ingest_all py es s).seen_order
unfolding ingest_all
IsYoung-ingest_all py id k [] s room h = subst (λ n. IsYoung n id s.seen_order) (omega arith) h
IsYoung-ingest_all py id k ((disk, e) ∷ es) s room h =
    subst (λ n. IsYoung n id (ingest_all py es (ingest py disk e s).0).seen_order) (omega arith)
      (IsYoung-ingest_all py id (suc k) es (ingest py disk e s).0
        (omega (arith, ap (λ k. k.0) (kept-ingest py disk e s)))
        (subst (λ k'. IsYoung (suc k) id k'.1.0) (sym (kept-ingest py disk e s))
          (IsYoung-remember (seen_max s) k id e.event_id s.seen_order s.seen (omega arith) h)))

is_new-ingest :
    (py : Python) (disk : Disk) (e : Envelope) (s : Store)
    → (ingest py disk e s).1 ≢ duplicate
    → (remember (seen_max s) e.event_id (memory s)).1 ≡ true
unfolding ingest
is_new-ingest py disk e s taken =
    elim (Bool-cases (remember (seen_max s) e.event_id (memory s)).1) [
      | inl new ↦ new
      | inr old ↦ absurd (taken (rw old refl))
    ]

-- After any envelopes, the set and the deque of the identities hold the same ones, each once, and at
-- most five for each item that the store may hold.
pub ingest_all-IsConsistent :
    (py : Python) (n : ℕ) (es : List (Disk × Envelope))
    → IsConsistent (max 1 n * 5) (memory (ingest_all py es (new_store n)))
ingest_all-IsConsistent py n es =
    subst (λ k. IsConsistent (k * 5) (memory (ingest_all py es (new_store n))))
      (max_items-ingest_all py es (new_store n))
      (IsSound-ingest_all py es (new_store n) (omega arith, (tt, omega arith, λ j. refl))).1

-- An envelope that is taken in is a duplicate, and changes nothing, when it comes again before as
-- many others as the memory has places less one.
pub ingest-again :
    (py : Python) (disk again : Disk) (e : Envelope) (es : List (Disk × Envelope)) (s : Store)
    → IsSound s
    → (ingest py disk e s).1 ≢ duplicate
    → length es < seen_max s
    → ingest py again e (ingest_all py es (ingest py disk e s).0)
      ≡ (ingest_all py es (ingest py disk e s).0, duplicate)
ingest-again py disk again e es s sound taken few =
    let t = (ingest py disk e s).0 in
    let u = ingest_all py es t in
    ingest-old py again e u (
      (IsSound-ingest_all py es t (IsSound-ingest py disk e s sound)).1.2 e.event_id
      ∙ IsYoung-member (0 + length es) e.event_id u.seen_order (
          IsYoung-ingest_all py e.event_id 0 es t
            (omega (arith, ap (λ k. k.0) (kept-ingest py disk e s)))
            (subst (λ k. IsYoung 0 e.event_id k.1.0) (sym (kept-ingest py disk e s))
              (IsYoung-new (seen_max s) e.event_id s.seen_order s.seen
                (is_new-ingest py disk e s taken)))))
