-- ===== src/Activity/Payload.antt =====
-- `_safe_event_data` and `ActivityEnvelope.safe_payload` of bridge/activity.py.
use dotty_stackchan.Prelude.{
  contains, ℕ, String, Bool, false, ◌||◌, Option, none, some, List, [], ◌∷◌, leb, if◌then◌else◌,
  length, any, to_lower, pos, take_chars,
}
use dotty_stackchan.Dict.{Dict, lookup, insert}
use dotty_stackchan.Perception.Types.{Value, bool, num, text, other}
use dotty_stackchan.Activity.Envelope.{
  Field, plain, mapping, Python, truth, str_or, safe_error, max_request_chars, max_response_chars,
  max_tool_name_chars, max_event_name_chars, max_event_data_fields, max_event_value_chars,
}

abbrev markers : List String
markers =
    "audio" ∷ "image" ∷ "frame" ∷ "bytes" ∷ "base64" ∷ "secret" ∷ "token" ∷ "password" ∷ "argument"
    ∷ "result" ∷ "payload" ∷ []

unfoldable pub is_opaque : String → Bool
unfolding contains to_lower
is_opaque key = any (λ marker. contains marker (to_lower key)) markers

-- The value under which a scalar is kept; a list or a mapping is not.
unfoldable pub safe_value : Value → Option Value
safe_value (text s) = some (text (take_chars max_event_value_chars s))
safe_value (other b) = none
safe_value v = some v

abbrev pub put_field : String → Option Value → Dict Value → Dict Value
put_field key none safe = safe
put_field key (some v) safe = insert key v safe

-- One turn of the loop, for a key that is cut to 64 characters.
unfoldable pub keep_field : String → Value → Dict Value → Dict Value
keep_field key v safe = if is_opaque key then safe else put_field key (safe_value v) safe

unfoldable pub keep_fields : Dict Value → Dict Value → Dict Value
keep_fields safe [] = safe
keep_fields safe ((raw_key, raw_value) ∷ rest) =
    let more = keep_fields (keep_field (take_chars 64 raw_key) raw_value safe) rest in
    if leb max_event_data_fields (length safe) then safe else more

unfoldable pub safe_event_data : Option Field → Dict Value
safe_event_data (some (mapping d)) = keep_fields [] d
safe_event_data _ = []

-- The payload of an event item.
pub record SafeEvent : Type 0 where
  pub name : String
  pub fields : Dict Value

unfoldable pub safe_event : Python → Dict Field → SafeEvent
safe_event py p = record {
  name = take_chars max_event_name_chars (str_or py "event" (lookup "name" p));
  fields = safe_event_data (lookup "data" p);
}

-- The payload of a turn: a field is `none` where the dict lacks the key.
pub record SafeTurn : Type 0 where
  pub request_text : Option String
  pub response_text : Option String
  pub error : Option String
  pub emoji_used : Option String
  pub tool_name : Option String
  pub tool_call_id : Option String
  pub asr_ms : Option ℕ
  pub model_first_text_ms : Option ℕ
  pub tool_duration_ms : Option ℕ
  pub tts_ms : Option ℕ
  pub first_audio_ms : Option ℕ
  pub total_ms : Option ℕ
  pub tool_ok : Option Bool

-- A text of at most `n` characters, if the key is there.
unfoldable pub bounded_text : Python → ℕ → Option Field → Option String
bounded_text py n none = none
bounded_text py n (some f) = some (take_chars n (str_or py "" (some f)))

-- A number that is not negative, rounded, where `float` takes it. `True` and `False` are numbers to Python.
unfoldable pub timing : Python → Option Field → Option ℕ
timing py (some (plain (num (pos n)))) = some (py.round_tenth n)
timing py (some (plain (bool b))) = some (py.round_tenth (if b then py.one else 0))
timing py _ = none

-- Whether `float(value)` raises.
abbrev pub overflows_at : Python → Option Field → Bool
overflows_at py (some (plain (num (pos n)))) = py.overflows n
overflows_at py _ = false

abbrev pub timing_overflows : Python → Dict Field → Bool
timing_overflows py p =
    overflows_at py (lookup "asr_ms" p)
    || overflows_at py (lookup "model_first_text_ms" p)
    || overflows_at py (lookup "tool_duration_ms" p)
    || overflows_at py (lookup "tts_ms" p)
    || overflows_at py (lookup "first_audio_ms" p)
    || overflows_at py (lookup "total_ms" p)

abbrev with_error : Python → Dict Field → Option String → SafeTurn
with_error py p error = record {
  request_text = bounded_text py max_request_chars (lookup "request_text" p);
  response_text = bounded_text py max_response_chars (lookup "response_text" p);
  error = error;
  emoji_used = bounded_text py 4 (lookup "emoji_used" p);
  tool_name = bounded_text py max_tool_name_chars (lookup "tool_name" p);
  tool_call_id = bounded_text py 96 (lookup "tool_call_id" p);
  asr_ms = timing py (lookup "asr_ms" p);
  model_first_text_ms = timing py (lookup "model_first_text_ms" p);
  tool_duration_ms = timing py (lookup "tool_duration_ms" p);
  tts_ms = timing py (lookup "tts_ms" p);
  first_audio_ms = timing py (lookup "first_audio_ms" p);
  total_ms = timing py (lookup "total_ms" p);
  tool_ok = elim (lookup "tool_ok" p) [ none ↦ none | some f ↦ some (truth (some f)) ];
}

-- The payload with its error, where no number overflows.
abbrev safe_fields : Python → Dict Field → Option String → Option SafeTurn
safe_fields py p error = if timing_overflows py p then none else some (with_error py p error)

-- `none` is an exception: of `_safe_error` on an empty error, or of `float` on a number.
unfoldable pub safe_turn : Python → Dict Field → Option SafeTurn
safe_turn py p = elim (lookup "error" p) [
  | none ↦ safe_fields py p none
  | some f ↦ elim (safe_error py (some f)) [
    | none ↦ none
    | some line ↦ safe_fields py p (some line)
  ]
]
