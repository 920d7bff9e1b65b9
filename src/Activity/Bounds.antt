-- ===== src/Activity/Bounds.antt =====
-- The bounds of the activity store of bridge/activity.py.
use dotty_stackchan.Prelude.{
  ℕ, ◌≤◌, max, String, ◌≡◌, refl, sym, inl, inr, Bool, not, Option, none, some, List, [], ◌∷◌, ◌++◌,
  map, arith, nat_eq, Bool-cases, length, keep, length-append, last_n, length-last_n-le, append,
}
use mathlib.Core.Path.{subst}
use dotty_stackchan.Dict.{remove}
use dotty_stackchan.Activity.Envelope.{Disk, Envelope, Phase, Python, turn, event}
use dotty_stackchan.Activity.Payload.{SafeTurn, safe_turn}
use dotty_stackchan.Activity.Turns.{Turn, fold_turn}
use dotty_stackchan.Activity.Duplicates.{announce_lem}
use dotty_stackchan.Activity.Store.{
  Store, new_store, Item, ItemQueue, Ingested, ingest, ingest_new, ingest_turn, take_turn,
  with_memory, remember, seen_max, persist_turn_once, persist_end, publish, broadcast_item,
  event_of, snapshot, store_item, offer_item, turn_item, turn_key, existing, subscribe_store,
  unsubscribe_store,
}

-- What is asked of the store: an envelope to take in, a subscription, or its end.
pub data Request : Type 0 where
  ingests : Disk → Envelope → Request
  subscribes : Request
  unsubscribes : ℕ → Request

unfoldable pub serve : Python → Request → Store → Store
serve py (ingests disk e) s = (ingest py disk e s).0
serve py subscribes s = (subscribe_store s).0.0
serve py (unsubscribes id) s = unsubscribe_store id s

unfoldable pub serve_all : Python → List Request → Store → Store
serve_all py [] s = s
serve_all py (r ∷ rs) s = serve_all py rs (serve py r s)

abbrev pub AreBounded : ℕ → List ItemQueue → Type 0
AreBounded m [] = Unit
AreBounded m (q ∷ qs) = (length q.items ≤ m) × AreBounded m qs

-- At most `m` items, and as many in each queue.
abbrev pub IsBounded : ℕ → Store → Type 0
IsBounded m s = (s.max_items ≡ m) × (length s.items ≤ m) × AreBounded m s.listeners

AreBounded-offer_item :
    (m : ℕ) (i : Item) (qs : List ItemQueue)
    → AreBounded m qs
    → AreBounded m (map (offer_item m i) qs)
unfolding offer_item
AreBounded-offer_item m i [] h = tt
AreBounded-offer_item m i (q ∷ qs) (short, h) =
    (ground (arith, length-append q.items (i ∷ [])), AreBounded-offer_item m i qs h)

AreBounded-append :
    (m id : ℕ) (qs : List ItemQueue)
    → AreBounded m qs
    → AreBounded m (qs ++ record { id = id; items = [] } ∷ [])
AreBounded-append m id [] h = (omega arith, tt)
AreBounded-append m id (q ∷ qs) (short, h) = (short, AreBounded-append m id qs h)

AreBounded-keep :
    (p : ItemQueue → Bool) (m : ℕ) (qs : List ItemQueue)
    → AreBounded m qs
    → AreBounded m (keep p qs)
AreBounded-keep p m [] h = tt
AreBounded-keep p m (q ∷ qs) (short, h) = elim (Bool-cases (p q)) [
  | inl kept ↦ rw kept (short, AreBounded-keep p m qs h)
  | inr gone ↦ rw gone (AreBounded-keep p m qs h)
]

IsBounded-publish :
    (m : ℕ) (key : String) (i : Item) (s : Store) → IsBounded m s → IsBounded m (publish key i s)
unfolding publish store_item
IsBounded-publish m key i s (same, few, queues) = (
  same,
  subst (λ n. length (last_n n (remove key s.items ++ (key, i) ∷ [])) ≤ m) (sym same)
      (length-last_n-le m (remove key s.items ++ (key, i) ∷ [])),
  queues,
)

IsBounded-broadcast_item :
    (m : ℕ) (i : Item) (s : Store) → IsBounded m s → IsBounded m (broadcast_item i s)
unfolding broadcast_item
IsBounded-broadcast_item m i s (same, few, queues) = (
  same,
  few,
  subst (λ n. AreBounded m (map (offer_item n i) s.listeners)) (sym same)
      (AreBounded-offer_item m i s.listeners queues),
)

persist_end-kept :
    (disk : Disk) (phase : Phase) (t : Turn) (s s' : Store)
    → persist_end disk phase t s ≡ some s'
    → (s'.max_items ≡ s.max_items) × (s'.items ≡ s.items) × (s'.listeners ≡ s.listeners)
unfolding persist_end persist_turn_once
persist_end-kept disk phase t s s' e = ground arith

IsBounded-persist_end :
    (m : ℕ) (disk : Disk) (phase : Phase) (t : Turn) (s s' : Store)
    → IsBounded m s
    → persist_end disk phase t s ≡ some s'
    → IsBounded m s'
IsBounded-persist_end m disk phase t s s' h e =
    let (max_same, items_same, queues_same) = persist_end-kept disk phase t s s' e in
    rw (max_same, items_same, queues_same) h

IsBounded-take_turn :
    (m : ℕ) (disk : Disk) (e : Envelope) (p : Option SafeTurn) (turn_id : Option String) (s : Store)
    → IsBounded m s
    → IsBounded m (take_turn disk e p turn_id s).0
unfolding take_turn
IsBounded-take_turn m disk e none turn_id s h = h
IsBounded-take_turn m disk e (some p) none s h = h
IsBounded-take_turn m disk e (some p) (some turn_id) s h =
    announce_lem {P = IsBounded m} (turn_item t) stored (persist_end disk e.phase t stored) bounded
      (λ s' e'. IsBounded-persist_end m disk e.phase t stored s' bounded e')
      (IsBounded-broadcast_item m (turn_item t))
  where
    t : Turn
    t = fold_turn p e (existing turn_id e s.items)

    stored : Store
    stored = publish (turn_key turn_id) (turn_item t) s

    bounded : IsBounded m stored
    bounded = IsBounded-publish m (turn_key turn_id) (turn_item t) s h

IsBounded-ingest_new :
    (m : ℕ) (py : Python) (disk : Disk) (e : Envelope) (s : Store)
    → IsBounded m s
    → IsBounded m (ingest_new py disk e s).0
unfolding ingest_new ingest_turn
IsBounded-ingest_new m py disk e s h =
    elim e.kind
      as (λ k.
        IsBounded m
          (elim k as (λ _. Store × Ingested) [
            | turn ↦ ingest_turn py disk e s
            | event ↦ (
              broadcast_item (event_of py e)
                  (publish (append "event:" e.event_id) (event_of py e) s),
              snapshot (event_of py e),
            )
          ]).0) [
            | turn ↦ IsBounded-take_turn m disk e (safe_turn py e.payload) e.turn_id s h
            | event ↦
                IsBounded-broadcast_item m (event_of py e) _
                  (IsBounded-publish m (append "event:" e.event_id) (event_of py e) s h)
          ]

IsBounded-ingest :
    (m : ℕ) (py : Python) (disk : Disk) (e : Envelope) (s : Store)
    → IsBounded m s
    → IsBounded m (ingest py disk e s).0
unfolding ingest
IsBounded-ingest m py disk e s h =
    elim (Bool-cases (remember (seen_max s) e.event_id (s.seen_order, s.seen)).1) [
      | inl new ↦ rw new (
          IsBounded-ingest_new m py disk e
            (with_memory (remember (seen_max s) e.event_id (s.seen_order, s.seen)) s) h)
      | inr old ↦ rw old h
    ]

IsBounded-serve :
    (m : ℕ) (py : Python) (r : Request) (s : Store) → IsBounded m s → IsBounded m (serve py r s)
unfolding serve subscribe_store unsubscribe_store
IsBounded-serve m py (ingests disk e) s h = IsBounded-ingest m py disk e s h
IsBounded-serve m py subscribes s h = (h.0, h.1, AreBounded-append m s.next_queue s.listeners h.2)
IsBounded-serve m py (unsubscribes id) s h =
    (h.0, h.1, AreBounded-keep (λ q. not (nat_eq q.id id)) m s.listeners h.2)

IsBounded-serve_all :
    (m : ℕ) (py : Python) (rs : List Request) (s : Store)
    → IsBounded m s
    → IsBounded m (serve_all py rs s)
unfolding serve_all
IsBounded-serve_all m py [] s h = h
IsBounded-serve_all m py (r ∷ rs) s h =
    IsBounded-serve_all m py rs (serve py r s) (IsBounded-serve m py r s h)

-- Under any requests, the store and the queue of every subscriber hold at most the configured number
-- of items, or one where that number is 0.
pub serve_all-IsBounded :
    (py : Python) (n : ℕ) (rs : List Request) → IsBounded (max 1 n) (serve_all py rs (new_store n))
serve_all-IsBounded py n rs =
    IsBounded-serve_all (max 1 n) py rs (new_store n) (refl, omega arith, tt)
