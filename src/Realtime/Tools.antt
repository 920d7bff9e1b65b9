-- ===== src/Realtime/Tools.antt =====
-- The function calls of a response in `OpenAIRealtimeBridge`.
use dotty_stackchan.Prelude.{
  ℕ, String, Bool, true, false, not, ◌&&◌, ◌||◌, Option, none, some, List, [], ◌∷◌, ◌++◌, ◌==◌,
  if◌then◌else◌, is_blank, strip, take_chars,
}
use dotty_stackchan.Realtime.State.{Effect, tool_answered, response_created, Settings, World}

-- The decoded arguments of a call, with the texts under `query` and `request`, empty where there is
-- none.
pub data Arguments : Type 0 where
  invalid not_mapping : Arguments
  mapping : String → String → Arguments

pub record ToolCall : Type 0 where
  pub call_id : Option String
  pub name : String
  pub arguments : Arguments

-- The web researcher, and the local agent where the connection has one: `none` where they raise.
pub record Agents : Type 0 where
  pub codex : String → Option String
  pub local : Option (String → Option String)

-- The text of the answer, or its error.
pub data Output : Type 0 where
  failure : String → Output
  answer : String → Output

-- `result[:n] or default`
abbrev pub bounded : ℕ → String → String → String
bounded n default result = let cut = take_chars n result in if is_blank cut then default else cut

abbrev answer_or : ℕ → String → String → Option String → Output
answer_or n default error none = failure error
answer_or n default error (some result) = answer (bounded n default result)

abbrev ask_local : String → Option (String → Option String) → Output
ask_local request none = failure "local agent unavailable"
ask_local request (some agent) =
    if is_blank request
    then failure "local agent unavailable"
    else answer_or 4000 "No result" "local agent failed"
        (elim (agent request) [ none ↦ none | some s ↦ some (strip s) ])

-- `_execute_tool`; `none` is the exception of arguments that are no mapping.
unfoldable pub execute_tool : Settings → Agents → String → Arguments → Option Output
execute_tool c a name invalid = some (failure "invalid arguments")
execute_tool c a name not_mapping =
    if name == "consult_codex_web" || name == "consult_dotty_local_agent"
    then none
    else some (failure "unknown tool")
execute_tool c a name (mapping query request) =
    if name == "consult_codex_web"
    then (if is_blank (strip query) || not c.codex_web_enabled || not c.has_codex_token
        then some (failure "Codex web research unavailable")
        else some (
            answer_or 8000 "No reliable web result was found." "Codex web research failed"
              (a.codex (strip query))))
    else if name == "consult_dotty_local_agent"
    then some (ask_local (strip request) a.local)
    else some (failure "unknown tool")

abbrev text_of : Output → String
text_of (failure s) = s
text_of (answer s) = s

-- The answers in order, and whether all calls were answered: an exception, or a session that takes
-- nothing more, ends the handler.
unfoldable pub answer_calls : Settings → World → Agents → List ToolCall → List Effect × Bool
answer_calls c w a [] = ([], true)
answer_calls c w a (call ∷ calls) =
    let rest = answer_calls c w a calls in
    elim call.call_id [
      | none ↦ rest
      | some id ↦ if is_blank id then rest else elim (execute_tool c a call.name call.arguments) [
        | none ↦ ([], false)
        | some output ↦
            if w.sends then (tool_answered id (text_of output) ∷ rest.0, rest.1) else ([], false)
      ]
    ]

-- `_complete_tool_calls`
unfoldable pub complete_tool_calls : Settings → World → Agents → List ToolCall → List Effect × Bool
complete_tool_calls c w a calls =
    let r = answer_calls c w a calls in
    if r.1 && w.sends then (r.0 ++ response_created ∷ [], true) else (r.0, false)
