-- ===== src/Activity/Envelope.antt =====
-- The wire data of bridge/activity.py: `ActivityEnvelope`, and what `safe_payload` lets through.
-- A number of a payload is a count of ticks here, so that `other` is a list or a mapping.
use dotty_stackchan.Prelude.{
  ℕ, code, String, Bool, false, not, ◌&&◌, ◌||◌, Option, none, some, leb, nat_eq, if◌then◌else◌,
  is_empty, is_blank, take_chars,
}
use dotty_stackchan.Dict.{Dict}
use dotty_stackchan.Perception.Types.{Value, text, is_true}

pub data Source : Type 0 where
  xiaozhi pi tts firmware behaviour : Source

pub data EnvelopeKind : Type 0 where
  turn event : EnvelopeKind

pub data Phase : Type 0 where
  asr_completed model_started tool_started tool_finished first_text response_ready : Phase
  tts_started playback_started completed failed aborted perception : Phase

-- A value of a payload. Only the value of `data` in an event is read as a mapping.
pub data Field : Type 0 where
  plain : Value → Field
  mapping : Dict Value → Field

pub record Envelope : Type 0 where
  pub event_id : String
  pub ts : ℕ
  pub source : Source
  pub kind : EnvelopeKind
  pub phase : Phase
  pub turn_id : Option String
  pub session_id : Option String
  pub device_id : Option String
  pub payload : Dict Field

-- How the writing of a log line ends: it is written, it fails with an `OSError`, or it fails with
-- another exception, as `fromtimestamp` does on a time out of its range, and the encoding of a text
-- that is no UTF-8.
pub data Disk : Type 0 where
  saves fails crashes : Disk

-- What the store asks of Python: `str` of a value that is no text, the three substitutions of
-- `_safe_error` on one line, the number 1.0 in ticks, rounding to one decimal, and whether `float`
-- overflows on a number.
pub record Python : Type 0 where
  pub show : Field → String
  pub redact : String → String
  pub one : ℕ
  pub round_tenth : ℕ → ℕ
  pub overflows : ℕ → Bool

abbrev pub max_request_chars : ℕ
max_request_chars = 500

abbrev pub max_response_chars : ℕ
max_response_chars = 1000

abbrev pub max_error_chars : ℕ
max_error_chars = 300

abbrev pub max_tool_name_chars : ℕ
max_tool_name_chars = 80

abbrev pub max_event_name_chars : ℕ
max_event_name_chars = 80

abbrev pub max_event_data_fields : ℕ
max_event_data_fields = 16

abbrev pub max_event_value_chars : ℕ
max_event_value_chars = 200

-- `bool(value)`
abbrev pub truth : Option Field → Bool
truth none = false
truth (some (plain v)) = is_true (some v)
truth (some (mapping d)) = not (is_empty d)

abbrev str_of : Python → Field → String
str_of py (plain (text s)) = s
str_of py f = py.show f

-- `str(value or default)`
unfoldable pub str_or : Python → String → Option Field → String
unfolding is_true
str_or py x none = x
str_or py x (some f) = if truth (some f) then str_of py f else x

-- The characters that end a line for `str.splitlines`.
unfoldable pub is_line_break : ℕ → Bool
is_line_break c =
    leb 10 c && leb c 13
    || leb 28 c && leb c 30
    || nat_eq c 0x85
    || nat_eq c 0x2028
    || nat_eq c 0x2029

unfoldable pub until_break : String → String
unfolding is_line_break
until_break String.[] = String.[]
until_break (String.◌∷◌ c s) =
    let rest = until_break s in if is_line_break (code c) then String.[] else String.◌∷◌ c rest

-- `text.splitlines()[0]`: an empty text has no line, and the index raises.
unfoldable pub first_line : String → Option String
unfolding until_break
first_line s = if is_blank s then none else some (until_break s)

-- `_safe_error`
unfoldable pub safe_error : Python → Option Field → Option String
unfolding first_line str_or
safe_error py f = elim (first_line (str_or py "" f)) [
  | none ↦ none
  | some line ↦ some (take_chars max_error_chars (py.redact line))
]
