-- ===== src/Activity/Stored.antt =====
-- The item that `ActivityStore.ingest` of bridge/activity.py stores of a turn.
use dotty_stackchan.Prelude.{
  ℕ, zero, suc, ◌≤◌, ◌<◌, String, ◌≡◌, refl, false, none, some, [], ◌∷◌, ◌++◌, arith, eq_refl,
  length, drop, length-append, last_n,
}
use dotty_stackchan.Dict.{Dict, lookup, remove, lookup-remove}
use dotty_stackchan.Activity.Envelope.{Envelope, Disk, Python, turn, Phase}
use dotty_stackchan.Activity.Payload.{SafeTurn, safe_turn}
use dotty_stackchan.Activity.Turns.{fold_tools, Turn, fold_turn}
use dotty_stackchan.Activity.Store.{
  Store, Item, turn_item, turn_key, existing, store_item, publish, persist_end, persist_turn_once,
  broadcast_item, take_turn, ingest, ingest_new, ingest_turn, remember, seen_max, with_memory,
  member,
}
use dotty_stackchan.Activity.Failures.{is_new-remember}
use dotty_stackchan.Activity.Duplicates.{announce_lem}

-- An envelope of the turn with a payload at which `safe_payload` does not raise.
abbrev pub IsOf : Python → String → Envelope → Type 0
IsOf py turn_id e =
    (e.kind ≡ turn)
    × (e.turn_id ≡ some turn_id)
    × ((p : SafeTurn) × (safe_turn py e.payload ≡ some p))

lookup-drop :
    (n : ℕ) (key : String) (i : Item) (d : Dict Item)
    → lookup key d ≡ none
    → n ≤ length d
    → lookup key (drop n (d ++ (key, i) ∷ [])) ≡ some i
unfolding lookup
lookup-drop zero key i [] new h = ground (arith, eq_refl key)
lookup-drop zero key i ((j, k) ∷ d) new h = ground (arith, lookup-drop zero key i d)
lookup-drop (suc n) key i [] new h = absurd (omega arith)
lookup-drop (suc n) key i ((j, k) ∷ d) new h = lookup-drop n key i d (ground arith) (omega arith)

-- The newest item is kept, whatever the others are.
pub lookup-store_item :
    (m : ℕ) (key : String) (i : Item) (d : Dict Item)
    → 0 < m
    → lookup key (store_item m key i d) ≡ some i
unfolding store_item last_n
lookup-store_item m key i d positive =
    lookup-drop _ key i (remove key d) (ground (arith, lookup-remove key key d, eq_refl key))
      (omega (arith, length-append (remove key d) ((key, i) ∷ [])))

persist_end-items :
    (disk : Disk) (phase : Phase) (t : Turn) (s s' : Store)
    → persist_end disk phase t s ≡ some s'
    → s'.items ≡ s.items
unfolding persist_end persist_turn_once
persist_end-items disk phase t s s' e = ground arith

items-take_turn :
    (disk : Disk) (e : Envelope) (p : SafeTurn) (turn_id : String) (s : Store)
    → (take_turn disk e (some p) (some turn_id) s).0.items
      ≡ store_item s.max_items
          (turn_key turn_id)
          (turn_item (fold_turn p e (existing turn_id e s.items)))
          s.items
unfolding take_turn publish broadcast_item
items-take_turn disk e p turn_id s =
    announce_lem {P = λ x. x.items ≡ stored.items} (turn_item t) stored
      (persist_end disk e.phase t stored) refl (persist_end-items disk e.phase t stored) (λ x h. h)
  where
    t : Turn
    t = fold_turn p e (existing turn_id e s.items)

    stored : Store
    stored = publish (turn_key turn_id) (turn_item t) s

items-ingest_new :
    (py : Python) (disk : Disk) (e : Envelope) (turn_id : String) (s : Store)
    (h : IsOf py turn_id e)
    → (ingest_new py disk e s).0.items
      ≡ store_item s.max_items
          (turn_key turn_id)
          (turn_item (fold_turn h.2.0 e (existing turn_id e s.items)))
          s.items
unfolding ingest_new ingest_turn take_turn existing fold_turn fold_tools
items-ingest_new py disk e turn_id s (kind, id, (p, safe)) =
    rw (kind, id, safe) (items-take_turn disk e p turn_id s)

pub items-ingest :
    (py : Python) (disk : Disk) (e : Envelope) (turn_id : String) (s : Store)
    (h : IsOf py turn_id e)
    → member e.event_id s.seen ≡ false
    → (ingest py disk e s).0.items
      ≡ store_item s.max_items
          (turn_key turn_id)
          (turn_item (fold_turn h.2.0 e (existing turn_id e s.items)))
          s.items
unfolding ingest
items-ingest py disk e turn_id s h new =
    rw (is_new-remember (seen_max s) e.event_id s.seen_order s.seen, new)
      (items-ingest_new py disk e turn_id
        (with_memory (remember (seen_max s) e.event_id (s.seen_order, s.seen)) s) h)
