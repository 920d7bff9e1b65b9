-- ===== src/Activity/Store.antt =====
-- `ActivityStore` of bridge/activity.py. Its lock makes each operation one step. The log file is the
-- list of the records that were written to it, and how a write ends is an input.
use dotty_stackchan.Prelude.{
  ℕ, ◌+◌, ◌*◌, max, String, Bool, true, false, not, Option, none, some, List, [], ◌∷◌, ◌++◌, map,
  ◌==◌, ltb, nat_eq, if◌then◌else◌, length, keep, any, last_n, is_blank, append, take_chars,
}
use dotty_stackchan.Dict.{Dict, lookup, remove}
use dotty_stackchan.Activity.Envelope.{
  Disk, saves, fails, crashes, Envelope, Phase, Source, Python, turn, event, max_request_chars,
  max_response_chars,
}
use dotty_stackchan.Activity.Payload.{SafeTurn, SafeEvent, safe_turn, safe_event}
use dotty_stackchan.Activity.Turns.{Turn, new_turn, fold_turn, terminal_rank}

pub record EventItem : Type 0 where
  pub event_id : String
  pub ts : ℕ
  pub source : Source
  pub phase : Phase
  pub device_id : Option String
  pub payload : SafeEvent

pub data Item : Type 0 where
  turn_item : Turn → Item
  event_item : EventItem → Item

-- A line of `convo-<date>.ndjson`.
pub record LogRecord : Type 0 where
  pub ts : ℕ
  pub turn_id : String
  pub request_text : String
  pub response_text : String
  pub latency_ms : Option ℕ
  pub error : Option String
  pub emoji_used : Option String
  pub phase : Phase

-- A subscriber's `asyncio.Queue(maxsize=max_items)`.
pub record ItemQueue : Type 0 where
  pub id : ℕ
  pub items : List Item

pub record Store : Type 0 where
  pub max_items : ℕ
  pub items : Dict Item
  pub seen_order : List String
  pub seen : List String
  pub listeners : List ItemQueue
  pub next_queue : ℕ
  pub persisted_turns : List String
  pub log : List LogRecord

-- `ActivityStore(max_items)`
abbrev pub new_store : ℕ → Store
new_store n = record {
  max_items = max 1 n;
  items = [];
  seen_order = [];
  seen = [];
  listeners = [];
  next_queue = 0;
  persisted_turns = [];
  log = [];
}

abbrev pub member : String → List String → Bool
member id ids = any (λ j. j == id) ids

abbrev pub seen_max : Store → ℕ
seen_max s = s.max_items * 5

-- `popleft`, and what `_seen` keeps then.
abbrev pub pop_oldest : List String → List String → List String × List String
pop_oldest [] seen = ([], seen)
pop_oldest (oldest ∷ order) seen = (order, keep (λ j. not (j == oldest)) seen)

-- `_remember_event_id`, on the deque and the set: whether the identity is new.
unfoldable pub remember :
    ℕ → String → List String × List String → (List String × List String) × Bool
remember m id (order, seen) =
    let (order', seen') = pop_oldest order seen in
    if member id seen
    then ((order, seen), false)
    else if nat_eq (length order) m
    then ((order' ++ id ∷ [], id ∷ seen'), true)
    else ((order ++ id ∷ [], id ∷ seen), true)

-- `self._items[key] = item`, `move_to_end` and the loop of `popitem(last=False)`.
unfoldable pub store_item : ℕ → String → Item → Dict Item → Dict Item
store_item m key item items = last_n m (remove key items ++ (key, item) ∷ [])

-- `put_nowait` on every queue; a full one keeps what it has.
unfoldable pub offer_item : ℕ → Item → ItemQueue → ItemQueue
offer_item m item q =
    if ltb (length q.items) m then record q { items = q.items ++ item ∷ [] } else q

abbrev some_text : String → Option String
some_text s = if is_blank s then none else some s

abbrev pub log_record : Turn → LogRecord
log_record t = record {
  ts = if nat_eq t.updated_ts 0 then t.ts else t.updated_ts;
  turn_id = t.turn_id;
  request_text = take_chars max_request_chars t.request_text;
  response_text = take_chars max_response_chars t.response_text;
  latency_ms = t.timings.total_ms;
  error = some_text t.error;
  emoji_used = some_text t.emoji_used;
  phase = t.phase;
}

-- `_persist_turn_once`: it catches an `OSError` only, and `none` is another exception.
unfoldable pub persist_turn_once : Disk → Turn → Store → Option Store
persist_turn_once disk t s = if member t.turn_id s.persisted_turns then some s else elim disk [
  | saves ↦ some (record s {
    persisted_turns = t.turn_id ∷ s.persisted_turns;
    log = s.log ++ log_record t ∷ [];
  })
  | fails ↦ some s
  | crashes ↦ none
]

-- The log entry of a phase that ends the turn.
unfoldable pub persist_end : Disk → Phase → Turn → Store → Option Store
persist_end disk phase t s =
    if nat_eq (terminal_rank phase) 0 then some s else persist_turn_once disk t s

pub data Ingested : Type 0 where
  duplicate : Ingested
  raised : Ingested
  snapshot : Item → Ingested

abbrev pub turn_key : String → String
turn_key turn_id = append "turn:" turn_id

-- The turn that the store holds. The key of an event never begins with `turn:`.
unfoldable pub existing : String → Envelope → Dict Item → Turn
existing turn_id e items = elim (lookup (turn_key turn_id) items) [
  | none ↦ new_turn turn_id e
  | some (turn_item t) ↦ t
  | some (event_item _) ↦ new_turn turn_id e
]

-- The item of an envelope, put into the items of the store.
unfoldable pub publish : String → Item → Store → Store
publish key item s = record s { items = store_item s.max_items key item s.items }

unfoldable pub broadcast_item : Item → Store → Store
broadcast_item item s = record s { listeners = map (offer_item s.max_items item) s.listeners }

-- What follows the log entry: a raise leaves the item stored, and nobody is sent it.
unfoldable pub announce : Item → Store → Option Store → Store × Ingested
announce item stored none = (stored, raised)
announce item stored (some s) = (broadcast_item item s, snapshot item)

-- `ingest` on a turn, from its safe payload and its identity: the assertion of `_fold_turn` raises
-- where there is no identity.
unfoldable pub take_turn :
    Disk → Envelope → Option SafeTurn → Option String → Store → Store × Ingested
take_turn disk e none _ s = (s, raised)
take_turn disk e (some p) none s = (s, raised)
take_turn disk e (some p) (some turn_id) s =
    let t = fold_turn p e (existing turn_id e s.items) in
    let stored = publish (turn_key turn_id) (turn_item t) s in
    announce (turn_item t) stored (persist_end disk e.phase t stored)

unfoldable pub ingest_turn : Python → Disk → Envelope → Store → Store × Ingested
ingest_turn py disk e s = take_turn disk e (safe_turn py e.payload) e.turn_id s

abbrev pub event_of : Python → Envelope → Item
event_of py e = event_item (record {
  event_id = e.event_id;
  ts = e.ts;
  source = e.source;
  phase = e.phase;
  device_id = e.device_id;
  payload = safe_event py e.payload;
})

-- `ingest` on an identity that is new.
unfoldable pub ingest_new : Python → Disk → Envelope → Store → Store × Ingested
ingest_new py disk e s = elim e.kind [
  | turn ↦ ingest_turn py disk e s
  | event ↦ (
    broadcast_item (event_of py e) (publish (append "event:" e.event_id) (event_of py e) s),
    snapshot (event_of py e),
  )
]

abbrev pub with_memory : (List String × List String) × Bool → Store → Store
with_memory r s = record s { seen_order = r.0.0; seen = r.0.1 }

-- `ingest`: a raise leaves the identity remembered.
unfoldable pub ingest : Python → Disk → Envelope → Store → Store × Ingested
ingest py disk e s =
    let r = remember (seen_max s) e.event_id (s.seen_order, s.seen) in
    if not r.1 then (with_memory r s, duplicate) else ingest_new py disk e (with_memory r s)

-- `replay`
abbrev pub replay : Store → List Item
replay s = map (λ entry. entry.1) s.items

-- `subscribe`
unfoldable pub subscribe_store : Store → (Store × ℕ) × List Item
subscribe_store s = (
  (
    record s {
      listeners = s.listeners ++ record { id = s.next_queue; items = [] } ∷ [];
      next_queue = s.next_queue + 1;
    },
    s.next_queue,
  ),
  replay s,
)

-- `unsubscribe`
unfoldable pub unsubscribe_store : ℕ → Store → Store
unsubscribe_store id s = record s { listeners = keep (λ q. not (nat_eq q.id id)) s.listeners }
