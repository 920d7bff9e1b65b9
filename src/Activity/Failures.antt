-- ===== src/Activity/Failures.antt =====
-- When `ActivityStore.ingest` of bridge/activity.py raises.
use dotty_stackchan.Prelude.{
  ℕ, String, ◌≡◌, refl, ◌↔◌, ◌∙◌, inl, inr, Bool, true, false, not, ◌&&◌, ◌||◌, nat_eq, Option,
  none, some, List, arith, Bool-cases, is_blank, append,
}
use dotty_stackchan.Dict.{lookup}
use dotty_stackchan.Activity.Envelope.{
  Disk, crashes, Phase, Envelope, Python, Field, EnvelopeKind, turn, event, str_or, safe_error,
  first_line,
}
use dotty_stackchan.Activity.Payload.{SafeTurn, safe_turn, timing_overflows}
use dotty_stackchan.Activity.Turns.{Turn, terminal_rank, fold_turn}
use dotty_stackchan.Activity.Store.{
  turn_item, Item, turn_key, Store, Ingested, member, ingest, ingest_new, ingest_turn, take_turn,
  with_memory, remember, seen_max, publish, broadcast_item, event_of, snapshot, raised, announce,
  persist_end, persist_turn_once, existing,
}

abbrev is_raised : Ingested → Bool
is_raised raised = true
is_raised _ = false

-- `error` is in the payload, and is empty or another value that is false.
abbrev pub has_empty_error : Python → Option Field → Bool
has_empty_error py none = false
has_empty_error py (some f) = is_blank (str_or py "" (some f))

-- The envelope ends the turn of its identity, which is not in the log, and the write of the log line
-- ends in another exception than an `OSError`.
abbrev pub log_crashes : Disk → Envelope → String → Store → Bool
log_crashes disk e turn_id s = elim disk [
  | crashes ↦
      not (nat_eq (terminal_rank e.phase) 0)
      && not (member (existing turn_id e s.items).turn_id s.persisted_turns)
  | _ ↦ false
]

abbrev pub raises_for : Python → Disk → Envelope → Store → EnvelopeKind → Bool
raises_for py disk e s kind = elim kind [
  | turn ↦
      has_empty_error py (lookup "error" e.payload)
      || timing_overflows py e.payload
      || elim e.turn_id [ none ↦ true | some turn_id ↦ log_crashes disk e turn_id s ]
  | event ↦ false
]

-- A new envelope of a turn that lacks an identity, has an empty error or a number that is too large,
-- or ends the turn where the log crashes.
abbrev pub raises : Python → Disk → Envelope → Store → Bool
raises py disk e s = not (member e.event_id s.seen) && raises_for py disk e s e.kind

is_raised-announce :
    (i : Item) (stored : Store) (o : Option Store)
    → is_raised (announce i stored o).1 ≡ elim o [ none ↦ true | some s ↦ false ]
unfolding announce
is_raised-announce i stored none = refl
is_raised-announce i stored (some s) = refl

is_none-persist_end :
    (disk : Disk) (phase : Phase) (t : Turn) (s : Store)
    → elim (persist_end disk phase t s) as (λ o. Bool) [ none ↦ true | some s ↦ false ]
      ≡ elim disk [
        | crashes ↦ not (nat_eq (terminal_rank phase) 0) && not (member t.turn_id s.persisted_turns)
        | _ ↦ false
      ]
unfolding persist_end persist_turn_once
is_none-persist_end disk phase t s = ground arith

is_raised-take_turn :
    (disk : Disk) (e : Envelope) (p : SafeTurn) (turn_id : String) (s : Store)
    → is_raised (take_turn disk e (some p) (some turn_id) s).1 ≡ log_crashes disk e turn_id s
unfolding take_turn publish fold_turn
is_raised-take_turn disk e p turn_id s =
    let t = fold_turn p e (existing turn_id e s.items) in
    let stored = publish (turn_key turn_id) (turn_item t) s in
    is_raised-announce (turn_item t) stored (persist_end disk e.phase t stored)
    ∙ is_none-persist_end disk e.phase t stored

is_raised-by_payload :
    (disk : Disk) (e : Envelope) (o : Option SafeTurn) (id : Option String) (s : Store)
    → is_raised (take_turn disk e o id s).1
      ≡ elim o [ none ↦ true | some p ↦ elim id [ none ↦ true | some i ↦ log_crashes disk e i s ] ]
unfolding take_turn
is_raised-by_payload disk e none id s = refl
is_raised-by_payload disk e (some p) none s = refl
is_raised-by_payload disk e (some p) (some i) s = is_raised-take_turn disk e p i s

is_raised-ingest_turn :
    (py : Python) (disk : Disk) (e : Envelope) (s : Store)
    → is_raised (ingest_turn py disk e s).1 ≡ raises_for py disk e s turn
unfolding ingest_turn safe_turn safe_error first_line
is_raised-ingest_turn py disk e s =
    is_raised-by_payload disk e (safe_turn py e.payload) e.turn_id s ∙ ground arith

is_raised-ingest_new :
    (py : Python) (disk : Disk) (e : Envelope) (s : Store)
    → is_raised (ingest_new py disk e s).1 ≡ raises_for py disk e s e.kind
unfolding ingest_new
is_raised-ingest_new py disk e s =
    elim e.kind
      as (λ k.
        is_raised
          (elim k as (λ _. Store × Ingested) [
            | turn ↦ ingest_turn py disk e s
            | event ↦ (
              broadcast_item (event_of py e)
                  (publish (append "event:" e.event_id) (event_of py e) s),
              snapshot (event_of py e),
            )
          ]).1
        ≡ raises_for py disk e s k) [ turn ↦ is_raised-ingest_turn py disk e s | event ↦ refl ]

pub is_new-remember :
    (m : ℕ) (id : String) (order seen : List String)
    → (remember m id (order, seen)).1 ≡ not (member id seen)
unfolding remember
is_new-remember m id order seen = ground arith

pub is_raised-ingest :
    (py : Python) (disk : Disk) (e : Envelope) (s : Store)
    → is_raised (ingest py disk e s).1 ≡ raises py disk e s
unfolding ingest
is_raised-ingest py disk e s = elim (Bool-cases (member e.event_id s.seen)) [
  | inl old ↦ rw (is_new-remember, old) refl
  | inr new ↦
      rw (is_new-remember, new)
        (is_raised-ingest_new py disk e
          (with_memory (remember (seen_max s) e.event_id (s.seen_order, s.seen)) s))
]

is_raised_iff : (i : Ingested) → (i ≡ raised) ↔ (is_raised i ≡ true)
is_raised_iff i = ground arith

-- The store raises exactly on an envelope of a turn, with an identity that it does not remember, that
-- lacks its `turn_id`, or has the key `error` with a value that is empty or false, or has a number
-- for a timing at which `float` overflows, or ends a turn that is not in the log where the writing of
-- its line ends in another exception than an `OSError`.
pub ingest-raises :
    (py : Python) (disk : Disk) (e : Envelope) (s : Store)
    → ((ingest py disk e s).1 ≡ raised) ↔ (raises py disk e s ≡ true)
ingest-raises py disk e s =
    ground (arith, is_raised_iff (ingest py disk e s).1, is_raised-ingest py disk e s)
