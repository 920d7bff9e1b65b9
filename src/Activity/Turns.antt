-- ===== src/Activity/Turns.antt =====
-- `ActivityStore._fold_turn` of bridge/activity.py.
use dotty_stackchan.Prelude.{
  ℕ, String, Bool, false, not, ◌||◌, Option, none, some, List, [], ◌∷◌, ◌++◌, ◌==◌, ltb, nat_eq,
  if◌then◌else◌, is_blank,
}
use dotty_stackchan.Activity.Envelope.{
  Envelope, Phase, Source, tool_started, tool_finished, completed, failed, aborted,
}
use dotty_stackchan.Activity.Payload.{SafeTurn}

pub data ToolStatus : Type 0 where
  running ok failure : ToolStatus

pub record Tool : Type 0 where
  pub id : String
  pub name : String
  pub status : ToolStatus
  pub duration_ms : Option ℕ

pub record Timings : Type 0 where
  pub asr_ms : Option ℕ
  pub model_first_text_ms : Option ℕ
  pub tts_ms : Option ℕ
  pub first_audio_ms : Option ℕ
  pub total_ms : Option ℕ

pub record Turn : Type 0 where
  pub turn_id : String
  pub event_id : String
  pub ts : ℕ
  pub updated_ts : ℕ
  pub source : Source
  pub phase : Phase
  pub session_id : Option String
  pub device_id : Option String
  pub request_text : String
  pub response_text : String
  pub emoji_used : String
  pub error : String
  pub timings : Timings
  pub tools : List Tool

-- The item of a turn that the store does not hold.
abbrev pub new_turn : String → Envelope → Turn
new_turn turn_id e = record {
  turn_id = turn_id;
  event_id = e.event_id;
  ts = e.ts;
  updated_ts = e.ts;
  source = e.source;
  phase = e.phase;
  session_id = e.session_id;
  device_id = e.device_id;
  request_text = "";
  response_text = "";
  emoji_used = "";
  error = "";
  timings = record {
    asr_ms = none;
    model_first_text_ms = none;
    tts_ms = none;
    first_audio_ms = none;
    total_ms = none;
  };
  tools = [];
}

-- `terminal_rank`, where 0 is a phase that it lacks.
unfoldable pub terminal_rank : Phase → ℕ
terminal_rank completed = 1
terminal_rank aborted = 2
terminal_rank failed = 3
terminal_rank _ = 0

-- The phase of the turn once an envelope is folded into it.
unfoldable pub next_phase : Phase → Phase → Phase
next_phase previous phase =
    if nat_eq (terminal_rank previous) 0
    then phase
    else if nat_eq (terminal_rank phase) 0 || ltb (terminal_rank phase) (terminal_rank previous)
    then previous
    else phase

-- `if new: item[key] = new`
abbrev set_text : Option String → Option String → Option String
set_text none old = old
set_text (some s) old = if is_blank s then old else some s

-- `if key in payload: item[key] = payload[key]`
abbrev pub or_old {ℓ} : {A : Type ℓ} → Option A → A → A
or_old none old = old
or_old (some x) old = x

abbrev pub or_kept : Option ℕ → Option ℕ → Option ℕ
or_kept none old = old
or_kept (some x) old = some x

-- `text or default`
abbrev pub text_or : Option String → String → String
text_or none x = x
text_or (some s) x = if is_blank s then x else s

abbrev has_text : Option String → Bool
has_text none = false
has_text (some s) = not (is_blank s)

abbrev is_text : Option String → String → Bool
is_text none s = false
is_text (some t) s = s == t

-- Whether a `tool_finished` is about a tool: by its call id, or by its name where it has no id.
unfoldable pub finishes : SafeTurn → Tool → Bool
finishes p tool =
    if has_text p.tool_call_id
    then is_text p.tool_call_id tool.id
    else is_text p.tool_name tool.name

unfoldable pub finished : SafeTurn → Tool → Tool
finished p tool = record tool {
  status = elim p.tool_ok [ none ↦ ok | some b ↦ if b then ok else failure ];
  duration_ms = p.tool_duration_ms;
}

-- The newest tool of the list that the envelope is about, changed; `none` if there is no such tool.
unfoldable pub finish_last : SafeTurn → List Tool → Option (List Tool)
finish_last p [] = none
finish_last p (tool ∷ tools) = elim (finish_last p tools) [
  | none ↦ if finishes p tool then some (finished p tool ∷ tools) else none
  | some tools' ↦ some (tool ∷ tools')
]

abbrev tool_of : SafeTurn → Envelope → Tool
tool_of p e = record {
  id = text_or p.tool_call_id e.event_id;
  name = text_or p.tool_name "tool";
  status = running;
  duration_ms = none;
}

unfoldable pub fold_tools : SafeTurn → Envelope → List Tool → List Tool
fold_tools p e tools = elim e.phase [
  | tool_started ↦ tools ++ tool_of p e ∷ []
  | tool_finished ↦ elim (finish_last p tools) [
    | none ↦ tools ++ finished p (tool_of p e) ∷ []
    | some tools' ↦ tools'
  ]
  | _ ↦ tools
]

unfoldable pub fold_turn : SafeTurn → Envelope → Turn → Turn
fold_turn p e t = record t {
  event_id = e.event_id;
  updated_ts = e.ts;
  source = e.source;
  phase = next_phase t.phase e.phase;
  session_id = set_text e.session_id t.session_id;
  device_id = set_text e.device_id t.device_id;
  request_text = or_old p.request_text t.request_text;
  response_text = or_old p.response_text t.response_text;
  emoji_used = or_old p.emoji_used t.emoji_used;
  error = or_old p.error t.error;
  timings = record {
    asr_ms = or_kept p.asr_ms t.timings.asr_ms;
    model_first_text_ms = or_kept p.model_first_text_ms t.timings.model_first_text_ms;
    tts_ms = or_kept p.tts_ms t.timings.tts_ms;
    first_audio_ms = or_kept p.first_audio_ms t.timings.first_audio_ms;
    total_ms = or_kept p.total_ms t.timings.total_ms;
  };
  tools = fold_tools p e t.tools;
}
