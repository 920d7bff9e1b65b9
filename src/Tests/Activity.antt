-- ===== src/Tests/Activity.antt =====
-- Runs of the activity store, and its theorems at concrete inputs.
use dotty_stackchan.Prelude.{
  contains, ◌≤◌, String, ◌≡◌, refl, ◌↔◌, true, none, some, List, [], ◌∷◌, arith, length, last_n,
  leb, to_lower, pos, append, after_prefix, take_chars,
}
use dotty_stackchan.Dict.{Dict, lookup, insert, remove}
use dotty_stackchan.Perception.Types.{num, text, other, is_true}
use dotty_stackchan.Activity.Envelope.{
  Envelope, Python, Field, plain, mapping, Phase, xiaozhi, turn, asr_completed, completed, failed,
  Disk, saves, fails, crashes, str_or, safe_error, first_line, until_break, max_event_data_fields,
}
use dotty_stackchan.Activity.Payload.{
  safe_event_data, keep_fields, keep_field, safe_value, is_opaque, safe_turn, bounded_text, timing,
}
use dotty_stackchan.Activity.Turns.{fold_turn, fold_tools, next_phase, terminal_rank}
use dotty_stackchan.Activity.Store.{
  new_store, duplicate, raised, ingest, ingest_new, ingest_turn, take_turn, remember,
  persist_turn_once, publish, broadcast_item, store_item, existing, persist_end, announce,
}
use dotty_stackchan.Activity.Seen.{IsConsistent, IsDistinct}
use dotty_stackchan.Activity.Duplicates.{ingest_all, ingest-again, ingest_all-IsConsistent, memory}
use dotty_stackchan.Activity.Outcome.{phase_in, outcome, phases, phase_in-ingest_all}
use dotty_stackchan.Activity.Persisted.{logged, logged-ingest_all}
use dotty_stackchan.Activity.Limits.{IsSafe, safe_event_data-IsSafe}
use dotty_stackchan.Activity.Failures.{raises, ingest-raises}
use dotty_stackchan.Activity.Bounds.{
  Request, ingests, subscribes, unsubscribes, serve_all, IsBounded, serve_all-IsBounded,
}

abbrev python : Python
python = record {
  show = λ f. "None";
  redact = λ s. s;
  one = 10;
  round_tenth = λ n. n;
  overflows = λ n. leb 1000 n;
}

abbrev envelope : String → Phase → Dict Field → Envelope
envelope id phase payload = record {
  event_id = id;
  ts = 100;
  source = xiaozhi;
  kind = turn;
  phase = phase;
  turn_id = some "t1";
  session_id = some "session-1";
  device_id = none;
  payload = payload;
}

-- A turn that fails after it was completed, whose end is sent twice, and the first of it again.
abbrev arrivals : List (Disk × Envelope)
arrivals =
    (saves, envelope "e1" asr_completed (("request_text", plain (text "hi")) ∷ []))
    ∷ (saves, envelope "e2" completed [])
    ∷ (saves, envelope "e2" completed [])
    ∷ (saves, envelope "e3" failed (("error", plain (text "lost\nmore")) ∷ []))
    ∷ (saves, envelope "e1" asr_completed [])
    ∷ []

logged_once : logged (ingest_all python arrivals (new_store 2)).log ≡ "t1" ∷ []
unfolding ingest_all ingest ingest_new ingest_turn take_turn remember persist_turn_once persist_end
    announce publish broadcast_item store_item existing safe_turn safe_error first_line until_break
    bounded_text timing str_or fold_turn fold_tools next_phase terminal_rank lookup remove last_n
    append take_chars is_true
logged_once = refl

remembered :
    memory (ingest_all python arrivals (new_store 2))
    ≡ ("e1" ∷ "e2" ∷ "e3" ∷ [], "e3" ∷ "e2" ∷ "e1" ∷ [])
unfolding ingest_all ingest ingest_new ingest_turn take_turn remember persist_turn_once persist_end
    announce publish broadcast_item store_item existing safe_turn safe_error first_line until_break
    bounded_text timing str_or fold_turn fold_tools next_phase terminal_rank lookup remove last_n
    append take_chars is_true
remembered = refl

logged-ingest_all_example : IsDistinct (logged (ingest_all python arrivals (new_store 2)).log)
logged-ingest_all_example = logged-ingest_all python 2 arrivals

ingest_all-IsConsistent_example :
    IsConsistent 10 (memory (ingest_all python arrivals (new_store 2)))
ingest_all-IsConsistent_example = ingest_all-IsConsistent python 2 arrivals

-- An empty error.
abbrev unlucky : Envelope
unlucky = envelope "e9" failed (("error", plain (text "")) ∷ [])

ingest-raises_example :
    ((ingest python saves unlucky (new_store 2)).1 ≡ raised)
    ↔ (raises python saves unlucky (new_store 2) ≡ true)
ingest-raises_example = ingest-raises python saves unlucky (new_store 2)

no_error_line : raises python saves unlucky (new_store 2) ≡ true
unfolding str_or is_true lookup
no_error_line = refl

-- The sender tries the envelope that raised again, after two others.
abbrev others : List (Disk × Envelope)
others = (saves, envelope "e1" asr_completed []) ∷ (fails, envelope "e2" completed []) ∷ []

ingest-again_example :
    ingest python saves unlucky
      (ingest_all python others (ingest python saves unlucky (new_store 2)).0)
    ≡ (ingest_all python others (ingest python saves unlucky (new_store 2)).0, duplicate)
unfolding ingest ingest_new ingest_turn take_turn remember safe_turn safe_error first_line str_or
    lookup is_true
ingest-again_example =
    ingest-again python saves saves unlucky others (new_store 2)
      (omega arith, (tt, omega arith, λ j. refl)) (λ e. absurd (ground arith)) (omega arith)

-- The end of a turn whose log line has a time that is no date.
abbrev lost : Envelope
lost = envelope "e4" completed []

log_crash : (ingest python crashes lost (new_store 2)).1 ≡ raised
unfolding ingest ingest_new ingest_turn take_turn remember safe_turn persist_end persist_turn_once
    announce publish store_item existing fold_turn fold_tools next_phase terminal_rank lookup remove
    last_n append
log_crash = refl

-- A number too large for `float`.
too_large :
    raises python saves
      (envelope "e5" completed (("total_ms", plain (num (pos 2000))) ∷ []))
      (new_store 2)
    ≡ true
unfolding str_or is_true lookup
too_large = refl

-- The end comes first, then an older phase and another end, whose write crashes.
abbrev ended : List (Disk × Envelope)
ended = (saves, envelope "e2" asr_completed []) ∷ (crashes, envelope "e3" failed []) ∷ []

phase_in-ingest_all_example :
    phase_in "t1" (ingest_all python ((fails, envelope "e1" completed []) ∷ ended) (new_store 2))
    ≡ some (outcome completed (phases ended))
unfolding safe_turn lookup
phase_in-ingest_all_example =
    phase_in-ingest_all python 2 "t1" fails (envelope "e1" completed []) ended
      ((refl, refl, (_, refl)), ((refl, refl, (_, refl)), ((refl, refl, (_, refl)), tt)))
      (refl, (refl, (refl, tt)))

abbrev sound_data : Field
sound_data = mapping (
    ("direction", text "left")
    ∷ ("audio_base64", text "private")
    ∷ ("Token", text "private")
    ∷ ("nested", other true)
    ∷ ("energy", num (pos 75))
    ∷ [])

sound_fields :
    safe_event_data (some sound_data) ≡ ("direction", text "left") ∷ ("energy", num (pos 75)) ∷ []
unfolding safe_event_data keep_fields keep_field safe_value is_opaque contains after_prefix to_lower
    take_chars insert
sound_fields = refl

safe_event_data-IsSafe_example :
    IsSafe (safe_event_data (some sound_data))
    × (length (safe_event_data (some sound_data)) ≤ max_event_data_fields)
safe_event_data-IsSafe_example = safe_event_data-IsSafe (some sound_data)

abbrev requests : List Request
requests =
    subscribes
    ∷ ingests saves (envelope "e1" asr_completed [])
    ∷ ingests saves unlucky
    ∷ unsubscribes 0
    ∷ []

serve_all-IsBounded_example : IsBounded 2 (serve_all python requests (new_store 2))
serve_all-IsBounded_example = serve_all-IsBounded python 2 requests
