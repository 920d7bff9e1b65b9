-- ===== src/Voice/Frames.antt =====
-- One turn of `PiClient.iter_turn_text` of custom-providers/pi_voice/pi_client.py, over what the queue
-- gives it until the deadline.
use dotty_stackchan.Prelude.{
  String, Bool, not, ◌&&◌, ◌||◌, Option, none, some, List, [], ◌∷◌, ◌==◌, if◌then◌else◌, is_blank,
}
use dotty_stackchan.Dict.{Dict, get_or, insert}

-- The fields of a tool call that the provider reads: the tool, and the argument `name`.
pub record ToolCall : Type 0 where
  pub name : Option String
  pub friendly : Option String

pub data Frame : Type 0 where
  -- A response to `prompt`: its request, and whether it succeeded.
  prompt_response : String → Bool → Frame
  text_delta : String → Frame
  toolcall_end : String → ToolCall → Frame
  -- A finished tool: its call, its name, whether it failed, and the text of its result.
  tool_execution_end : String → Option String → Bool → String → Frame
  agent_end : Frame
  unhandled : Frame

-- A frame, or a second in which none came, with whether the process lives then.
pub data Arrival : Type 0 where
  arrived : Frame → Arrival
  quiet : Bool → Arrival

pub record ToolEvent : Type 0 where
  pub id : String
  pub name : Option String
  pub friendly : Option String
  pub is_error : Bool
  pub result_text : String

pub data Outcome : Type 0 where
  finished rejected exited early_end timed_out : Outcome

-- What a turn yields, what it tells of tools, and how it ends: all but `finished` are errors.
pub record Turned : Type 0 where
  pub texts : List String
  pub tools : List ToolEvent
  pub outcome : Outcome

abbrev ended : Outcome → Turned
ended outcome = record { texts = []; tools = []; outcome = outcome }

abbrev with_text : String → Turned → Turned
with_text delta t = record t { texts = delta ∷ t.texts }

abbrev with_tool : ToolEvent → Turned → Turned
with_tool event t = record t { tools = event ∷ t.tools }

abbrev no_call : ToolCall
no_call = record { name = none; friendly = none }

-- `frame.get("toolName") or tool_call.get("name")`
abbrev name_or : Option String → Option String → Option String
name_or none old = old
name_or (some s) old = if is_blank s then old else some s

abbrev tool_event : String → Option String → Bool → String → ToolCall → ToolEvent
tool_event id name is_error result call = record {
  id = id;
  name = name_or name call.name;
  friendly = call.friendly;
  is_error = is_error;
  result_text = result;
}

abbrev pub kept_call : String → ToolCall → Dict ToolCall → Dict ToolCall
kept_call id call calls = if is_blank id then calls else insert id call calls

-- From the request, whether it was accepted yet, and the tool calls that were announced.
unfoldable pub iter_turn_text : String → Bool → Dict ToolCall → List Arrival → Turned
iter_turn_text req saw_accept calls [] = ended timed_out
iter_turn_text req saw_accept calls (quiet alive ∷ rest) =
    let t = iter_turn_text req saw_accept calls rest in if alive then t else ended exited
iter_turn_text req saw_accept calls (arrived (prompt_response id success) ∷ rest) =
    let t = iter_turn_text req (saw_accept || id == req) calls rest in
    if id == req && not success then ended rejected else t
iter_turn_text req saw_accept calls (arrived (text_delta delta) ∷ rest) =
    let t = iter_turn_text req saw_accept calls rest in
    if is_blank delta then t else with_text delta t
iter_turn_text req saw_accept calls (arrived (toolcall_end id call) ∷ rest) =
    iter_turn_text req saw_accept (kept_call id call calls) rest
iter_turn_text req saw_accept calls (arrived (tool_execution_end id name is_error result) ∷ rest) =
    with_tool (tool_event id name is_error result (get_or id no_call calls))
      (iter_turn_text req saw_accept calls rest)
iter_turn_text req saw_accept calls (arrived agent_end ∷ rest) =
    if saw_accept then ended finished else ended early_end
iter_turn_text req saw_accept calls (arrived unhandled ∷ rest) =
    iter_turn_text req saw_accept calls rest
