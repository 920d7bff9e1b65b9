-- ===== src/Activity/Outcome.antt =====
-- How a turn of bridge/activity.py ends: the phase that the store holds of a turn after the
-- envelopes of the turn were taken in.
use dotty_stackchan.Prelude.{
  ℕ, ◌<◌, String, ◌≡◌, refl, sym, ap, ◌∙◌, Bool, true, false, not, ◌||◌, Option, none, some, List,
  [], ◌∷◌, arith, ◌==◌, eq_iff, if◌then◌else◌, keep, any,
}
use mathlib.Core.Path.{subst}
use dotty_stackchan.Dict.{Dict, lookup}
use dotty_stackchan.Activity.Stored.{IsOf, lookup-store_item, items-ingest}
use dotty_stackchan.Activity.Envelope.{Envelope, Disk, Python, Phase, completed, failed, aborted}
use dotty_stackchan.Activity.Turns.{fold_turn, next_phase, terminal_rank}
use dotty_stackchan.Activity.Store.{
  new_store, Store, Item, turn_item, event_item, turn_key, existing, ingest, remember, seen_max,
  member,
}
use dotty_stackchan.Activity.Seen.{IsDistinct}
use dotty_stackchan.Activity.Duplicates.{kept-ingest, ingest_all}

abbrev is_failed : Phase → Bool
is_failed failed = true
is_failed _ = false

abbrev is_aborted : Phase → Bool
is_aborted aborted = true
is_aborted _ = false

abbrev is_completed : Phase → Bool
is_completed completed = true
is_completed _ = false

abbrev last_of : Phase → List Phase → Phase
last_of p [] = p
last_of p (q ∷ qs) = last_of q qs

-- The end of a turn with these phases: it failed, if it ever failed, else it was aborted, if it ever
-- was, else it was completed, if it ever was, else it is at the last of its phases.
abbrev pub outcome : Phase → List Phase → Phase
outcome p ps =
    if is_failed p || any is_failed ps
    then failed
    else if is_aborted p || any is_aborted ps
    then aborted
    else if is_completed p || any is_completed ps
    then completed
    else last_of p ps

outcome-next_phase :
    (p q : Phase) (ps : List Phase) → outcome (next_phase p q) ps ≡ outcome p (q ∷ ps)
unfolding next_phase terminal_rank
outcome-next_phase p q ps = ground arith

-- The phase that the store holds of a turn.
abbrev pub phase_of : Option Item → Option Phase
phase_of none = none
phase_of (some (turn_item t)) = some t.phase
phase_of (some (event_item i)) = none

abbrev pub phase_in : String → Store → Option Phase
phase_in turn_id s = phase_of (lookup (turn_key turn_id) s.items)

abbrev pub AreOf : Python → String → List (Disk × Envelope) → Type 0
AreOf py turn_id [] = Unit
AreOf py turn_id ((disk, e) ∷ es) = IsOf py turn_id e × AreOf py turn_id es

abbrev pub ids : List (Disk × Envelope) → List String
ids [] = []
ids ((disk, e) ∷ es) = e.event_id ∷ ids es

abbrev pub phases : List (Disk × Envelope) → List Phase
phases [] = []
phases ((disk, e) ∷ es) = e.phase ∷ phases es

phase-existing :
    (turn_id : String) (e : Envelope) (d : Dict Item)
    → (existing turn_id e d).phase
      ≡ elim (phase_of (lookup (turn_key turn_id) d)) [ none ↦ e.phase | some p ↦ p ]
unfolding existing
phase-existing turn_id e d = ground arith

-- The phase of a turn, known or not, once an envelope is folded into it.
abbrev then_phase : Option Phase → Phase → Phase
then_phase none q = q
then_phase (some p) q = next_phase p q

next_phase-then_phase :
    (q : Phase) (o : Option Phase) {old : Phase}
    → old ≡ elim o [ none ↦ q | some p ↦ p ]
    → some (next_phase old q) ≡ some (then_phase o q)
unfolding next_phase terminal_rank
next_phase-then_phase q none same = rw same (ground arith)
next_phase-then_phase q (some p) same = rw same refl

phase_in-ingest :
    (py : Python) (disk : Disk) (e : Envelope) (turn_id : String) (s : Store)
    → IsOf py turn_id e
    → member e.event_id s.seen ≡ false
    → 0 < s.max_items
    → phase_in turn_id (ingest py disk e s).0 ≡ some (then_phase (phase_in turn_id s) e.phase)
unfolding fold_turn
phase_in-ingest py disk e turn_id s h new positive =
    rw
      (
        items-ingest py disk e turn_id s h new,
        lookup-store_item s.max_items (turn_key turn_id) _ s.items positive,
      )
      (next_phase-then_phase e.phase (phase_in turn_id s) (phase-existing turn_id e s.items))

abbrev AreNew : List String → List String → Type 0
AreNew seen [] = Unit
AreNew seen (j ∷ js) = (member j seen ≡ false) × AreNew seen js

member-keep_none :
    (f : String → Bool) (j : String) (xs : List String)
    → member j xs ≡ false
    → member j (keep f xs) ≡ false
member-keep_none f j [] h = refl
member-keep_none f j (x ∷ xs) h = ground (arith, member-keep_none f j xs)

member-remember :
    (m : ℕ) (id j : String) (order seen : List String)
    → member j seen ≡ false
    → (id == j) ≡ false
    → member j (remember m id (order, seen)).0.1 ≡ false
unfolding remember
member-remember m id j [] seen h other = ground arith
member-remember m id j (o ∷ order) seen h other =
    ground (arith, member-keep_none (λ i. not (i == o)) j seen h)

AreNew-ingest :
    (py : Python) (disk : Disk) (e : Envelope) (s : Store) (js : List String)
    → AreNew s.seen js
    → member e.event_id js ≡ false
    → AreNew (ingest py disk e s).0.seen js
AreNew-ingest py disk e s [] h other = tt
AreNew-ingest py disk e s (j ∷ js) h other = (
  ap (λ k. member j k.1.1) (kept-ingest py disk e s)
      ∙ member-remember (seen_max s) e.event_id j s.seen_order s.seen h.0
          (ground (arith, eq_iff e.event_id j, eq_iff j e.event_id)),
  AreNew-ingest py disk e s js h.1 (ground arith),
)

phase_in-ingest_all_from :
    (py : Python) (turn_id : String) (es : List (Disk × Envelope)) (s : Store) (p : Phase)
    → phase_in turn_id s ≡ some p
    → 0 < s.max_items
    → AreOf py turn_id es
    → AreNew s.seen (ids es)
    → IsDistinct (ids es)
    → phase_in turn_id (ingest_all py es s) ≡ some (outcome p (phases es))
unfolding ingest_all
phase_in-ingest_all_from py turn_id [] s p known positive all new distinct = known ∙ ground arith
phase_in-ingest_all_from py turn_id ((disk, e) ∷ es) s p known positive all new distinct =
    phase_in-ingest_all_from py turn_id es (ingest py disk e s).0 (next_phase p e.phase)
      (phase_in-ingest py disk e turn_id s all.0 new.0 positive
        ∙ ap (λ o. some (then_phase o e.phase)) known)
      (subst (λ k. 0 < k.0) (sym (kept-ingest py disk e s)) positive) all.1
      (AreNew-ingest py disk e s (ids es) new.1 distinct.0) distinct.1
    ∙ ap some (outcome-next_phase p e.phase (phases es))

AreNew-nil : (js : List String) → AreNew [] js
AreNew-nil [] = tt
AreNew-nil (j ∷ js) = (refl, AreNew-nil js)

-- A store that is new and takes in the envelopes of one turn, each with its own identity and with a
-- payload that does not raise, in whatever order their phases come and however the writes of the log
-- end, holds that turn as failed if any of them says so, else as aborted if any says so, else as
-- completed if any says so, else at the phase that came last.
pub phase_in-ingest_all :
    (py : Python) (n : ℕ) (turn_id : String) (disk : Disk) (e : Envelope)
    (es : List (Disk × Envelope))
    → AreOf py turn_id ((disk, e) ∷ es)
    → IsDistinct (ids ((disk, e) ∷ es))
    → phase_in turn_id (ingest_all py ((disk, e) ∷ es) (new_store n))
      ≡ some (outcome e.phase (phases es))
unfolding ingest_all lookup
phase_in-ingest_all py n turn_id disk e es all distinct =
    phase_in-ingest_all_from py turn_id es (ingest py disk e (new_store n)).0 e.phase
      (phase_in-ingest py disk e turn_id (new_store n) all.0 refl (omega arith))
      (subst (λ k. 0 < k.0) (sym (kept-ingest py disk e (new_store n))) (omega arith)) all.1
      (AreNew-ingest py disk e (new_store n) (ids es) (AreNew-nil (ids es)) distinct.0) distinct.1
