-- ===== src/Voice/Turns.antt =====
-- When a turn of Pi finishes, and what is said then.
use dotty_stackchan.Prelude.{
  Char, String, ◌≡◌, refl, Bool, true, false, not, ◌&&◌, ◌||◌, Option, none, some, List, [], ◌∷◌,
  arith, ◌==◌, if◌then◌else◌, any, is_blank, append, concat,
}
use dotty_stackchan.Dict.{Dict}
use dotty_stackchan.Voice.Faces.{has_face, is_allowed}
use dotty_stackchan.Voice.Filter.{Matching}
use dotty_stackchan.Voice.Spoken.{has_face-spoken}
use dotty_stackchan.Voice.Frames.{
  kept_call, prompt_response, text_delta, toolcall_end, tool_execution_end, agent_end, unhandled,
  Arrival, arrived, quiet, ToolCall, Turned, Outcome, finished, rejected, exited, early_end,
  timed_out, iter_turn_text,
}
use dotty_stackchan.Voice.Reply.{first_confirmation, say_reply, reply}

-- The arrivals up to the first `agent_end`, if there is one.
abbrev pub before_end : List Arrival → Option (List Arrival)
before_end [] = none
before_end (arrived agent_end ∷ rest) = some []
before_end (a ∷ rest) = elim (before_end rest) [ none ↦ none | some earlier ↦ some (a ∷ earlier) ]

abbrev pub is_acceptance : String → Arrival → Bool
is_acceptance req (arrived (prompt_response id success)) = id == req && success
is_acceptance req _ = false

-- The request is refused, or the process is gone.
abbrev pub is_failure : String → Arrival → Bool
is_failure req (arrived (prompt_response id success)) = id == req && not success
is_failure req (quiet alive) = not alive
is_failure req _ = false

abbrev pub deltas : List Arrival → List String
deltas [] = []
deltas (arrived (text_delta s) ∷ rest) = if is_blank s then deltas rest else s ∷ deltas rest
deltas (a ∷ rest) = deltas rest

-- The texts of a turn that finishes: one whose request is accepted, nothing failing, before the end.
abbrev completed_texts : String → Bool → Option (List Arrival) → Option (List String)
completed_texts req saw_accept none = none
completed_texts req saw_accept (some earlier) =
    if (saw_accept || any (is_acceptance req) earlier) && not (any (is_failure req) earlier)
    then some (deltas earlier)
    else none

abbrev pub expected : String → List Arrival → Option (List String)
expected req arrivals = completed_texts req false (before_end arrivals)

-- The texts of a turn without an error.
abbrev pub result : Turned → Option (List String)
result t = elim t.outcome [ finished ↦ some t.texts | _ ↦ none ]

result-iter_turn_text :
    (req : String) (saw_accept : Bool) (calls : Dict ToolCall) (arrivals : List Arrival)
    → result (iter_turn_text req saw_accept calls arrivals)
      ≡ completed_texts req saw_accept (before_end arrivals)
unfolding iter_turn_text
result-iter_turn_text req saw_accept calls [] = refl
result-iter_turn_text req saw_accept calls (quiet alive ∷ rest) =
    ground (arith, result-iter_turn_text req saw_accept calls rest)
result-iter_turn_text req saw_accept calls (arrived (prompt_response id success) ∷ rest) =
    ground (arith, result-iter_turn_text req (saw_accept || id == req) calls rest)
result-iter_turn_text req saw_accept calls (arrived (text_delta s) ∷ rest) =
    ground (arith, result-iter_turn_text req saw_accept calls rest)
result-iter_turn_text req saw_accept calls (arrived (toolcall_end id call) ∷ rest) =
    ground (arith, result-iter_turn_text req saw_accept (kept_call id call calls) rest)
result-iter_turn_text req saw_accept calls (arrived (tool_execution_end id name e r) ∷ rest) =
    ground (arith, result-iter_turn_text req saw_accept calls rest)
result-iter_turn_text req saw_accept calls (arrived agent_end ∷ rest) = ground arith
result-iter_turn_text req saw_accept calls (arrived unhandled ∷ rest) =
    ground (arith, result-iter_turn_text req saw_accept calls rest)

-- A turn gives its texts exactly if, before the first `agent_end`, its request is accepted, no
-- response to it is a refusal, and the process lives; it gives then all the texts that came before
-- that end, in order. In every other case it fails.
pub iter_turn_text-expected :
    (req : String) (arrivals : List Arrival)
    → result (iter_turn_text req false [] arrivals) ≡ expected req arrivals
iter_turn_text-expected req arrivals = result-iter_turn_text req false [] arrivals

has_face-say_reply :
    (is_symbol : Char → Bool) (r : Matching) (kid_mode : Bool) (t : Turned) (o : Outcome)
    → has_face (concat (say_reply is_symbol r kid_mode t o none)) ≡ true
unfolding say_reply concat append is_allowed
has_face-say_reply is_symbol r kid_mode t finished = has_face-spoken is_symbol r kid_mode _
has_face-say_reply is_symbol r kid_mode t rejected = refl
has_face-say_reply is_symbol r kid_mode t exited = refl
has_face-say_reply is_symbol r kid_mode t early_end = refl
has_face-say_reply is_symbol r kid_mode t timed_out = refl

-- However a turn of Pi ends, and whatever it yields, the reply starts with an allowed emoji, unless
-- it asks to confirm a tool.
pub has_face-reply :
    (is_symbol : Char → Bool) (r : Matching) (kid_mode : Bool) (t : Turned)
    → first_confirmation t.tools ≡ none
    → has_face (concat (reply is_symbol r kid_mode t)) ≡ true
unfolding reply
has_face-reply is_symbol r kid_mode t plain =
    rw plain (has_face-say_reply is_symbol r kid_mode t t.outcome)
