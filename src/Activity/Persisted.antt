-- ===== src/Activity/Persisted.antt =====
-- The log of the turns that bridge/activity.py writes.
use dotty_stackchan.Prelude.{
  ℕ, String, ◌≡◌, refl, sym, ◌∙◌, inl, inr, ◌⊎◌, false, Option, none, some, List, [], ◌∷◌, ◌++◌,
  arith, Bool-cases, append,
}
use mathlib.Core.Path.{subst}
use dotty_stackchan.Activity.Envelope.{Disk, Envelope, Phase, Python, turn, event}
use dotty_stackchan.Activity.Payload.{SafeTurn, safe_turn}
use dotty_stackchan.Activity.Turns.{Turn, fold_turn}
use dotty_stackchan.Activity.Store.{
  take_turn, turn_item, turn_key, existing, Store, new_store, LogRecord, log_record, Ingested,
  member, ingest, ingest_new, ingest_turn, with_memory, remember, seen_max, persist_turn_once,
  persist_end, publish, broadcast_item, event_of, snapshot,
}
use dotty_stackchan.Activity.Seen.{IsDistinct, IsDistinct-append, member-append}
use dotty_stackchan.Activity.Duplicates.{ingest_all, announce_lem}

abbrev pub logged : List LogRecord → List String
logged [] = []
logged (r ∷ rs) = r.turn_id ∷ logged rs

logged-append : (rs qs : List LogRecord) → logged (rs ++ qs) ≡ logged rs ++ logged qs
logged-append [] qs = refl
logged-append (r ∷ rs) qs = rw (logged-append rs qs) refl

-- Every logged turn is remembered as persisted, and none is logged twice.
abbrev pub IsLoggedOnce : List String → List LogRecord → Type 0
IsLoggedOnce persisted log =
    IsDistinct (logged log) × ((id : String) → member id persisted ≡ member id (logged log))

IsLoggedOnce-append :
    (persisted : List String) (log : List LogRecord) (r : LogRecord)
    → member r.turn_id persisted ≡ false
    → IsLoggedOnce persisted log
    → IsLoggedOnce (r.turn_id ∷ persisted) (log ++ r ∷ [])
IsLoggedOnce-append persisted log r new (distinct, same) = (
  subst IsDistinct (sym (logged-append log (r ∷ [])))
      (IsDistinct-append (logged log) r.turn_id distinct (sym (same r.turn_id) ∙ new)),
  λ id.
      rw (logged-append log (r ∷ []))
        (ground (arith, same id, member-append id (logged log) (r.turn_id ∷ []))),
)

abbrev HasLoggedOnce : Store → Type 0
HasLoggedOnce s = IsLoggedOnce s.persisted_turns s.log

-- What a log entry that does not raise leaves: the store as it was, or with a new line.
persist_end-cases :
    (disk : Disk) (phase : Phase) (t : Turn) (s s' : Store)
    → persist_end disk phase t s ≡ some s'
    → ((s'.persisted_turns ≡ s.persisted_turns) × (s'.log ≡ s.log))
      ⊎ ((member t.turn_id s.persisted_turns ≡ false)
          × (s'.persisted_turns ≡ t.turn_id ∷ s.persisted_turns)
          × (s'.log ≡ s.log ++ log_record t ∷ []))
unfolding persist_end persist_turn_once
persist_end-cases disk phase t s s' e = ground arith

HasLoggedOnce-persist_end :
    (disk : Disk) (phase : Phase) (t : Turn) (s s' : Store)
    → HasLoggedOnce s
    → persist_end disk phase t s ≡ some s'
    → HasLoggedOnce s'
HasLoggedOnce-persist_end disk phase t s s' h e = elim (persist_end-cases disk phase t s s' e) [
  | inl (turns, log) ↦ rw (turns, log) h
  | inr (new, turns, log) ↦
      rw (turns, log) (IsLoggedOnce-append s.persisted_turns s.log (log_record t) new h)
]

HasLoggedOnce-take_turn :
    (disk : Disk) (e : Envelope) (p : Option SafeTurn) (turn_id : Option String) (s : Store)
    → HasLoggedOnce s
    → HasLoggedOnce (take_turn disk e p turn_id s).0
unfolding take_turn publish broadcast_item
HasLoggedOnce-take_turn disk e none turn_id s h = h
HasLoggedOnce-take_turn disk e (some p) none s h = h
HasLoggedOnce-take_turn disk e (some p) (some turn_id) s h =
    announce_lem {P = HasLoggedOnce} (turn_item t) (publish (turn_key turn_id) (turn_item t) s)
      (persist_end disk e.phase t (publish (turn_key turn_id) (turn_item t) s)) h
      (λ s' e'.
        HasLoggedOnce-persist_end disk e.phase t (publish (turn_key turn_id) (turn_item t) s) s' h
          e')
      (λ s' h'. h')
  where
    t : Turn
    t = fold_turn p e (existing turn_id e s.items)

HasLoggedOnce-ingest_new :
    (py : Python) (disk : Disk) (e : Envelope) (s : Store)
    → HasLoggedOnce s
    → HasLoggedOnce (ingest_new py disk e s).0
unfolding ingest_new ingest_turn publish broadcast_item
HasLoggedOnce-ingest_new py disk e s h =
    elim e.kind
      as (λ k.
        HasLoggedOnce
          (elim k as (λ _. Store × Ingested) [
            | turn ↦ ingest_turn py disk e s
            | event ↦ (
              broadcast_item (event_of py e)
                  (publish (append "event:" e.event_id) (event_of py e) s),
              snapshot (event_of py e),
            )
          ]).0) [
            | turn ↦ HasLoggedOnce-take_turn disk e (safe_turn py e.payload) e.turn_id s h
            | event ↦ h
          ]

HasLoggedOnce-ingest :
    (py : Python) (disk : Disk) (e : Envelope) (s : Store)
    → HasLoggedOnce s
    → HasLoggedOnce (ingest py disk e s).0
unfolding ingest
HasLoggedOnce-ingest py disk e s h =
    elim (Bool-cases (remember (seen_max s) e.event_id (s.seen_order, s.seen)).1) [
      | inl new ↦ rw new (
          HasLoggedOnce-ingest_new py disk e
            (with_memory (remember (seen_max s) e.event_id (s.seen_order, s.seen)) s) h)
      | inr old ↦ rw old h
    ]

HasLoggedOnce-ingest_all :
    (py : Python) (es : List (Disk × Envelope)) (s : Store)
    → HasLoggedOnce s
    → HasLoggedOnce (ingest_all py es s)
unfolding ingest_all
HasLoggedOnce-ingest_all py [] s h = h
HasLoggedOnce-ingest_all py ((disk, e) ∷ es) s h =
    HasLoggedOnce-ingest_all py es (ingest py disk e s).0 (HasLoggedOnce-ingest py disk e s h)

-- Whatever envelopes come, the repeated ends of a turn included, and whichever writes fail, no turn
-- is in the log twice.
pub logged-ingest_all :
    (py : Python) (n : ℕ) (es : List (Disk × Envelope))
    → IsDistinct (logged (ingest_all py es (new_store n)).log)
logged-ingest_all py n es = (HasLoggedOnce-ingest_all py es (new_store n) (tt, λ id. refl)).0
