-- ===== src/Voice/Session.antt =====
-- When `LLMProvider` of custom-providers/pi_voice/pi_voice.py resets the conversation of Pi. A
-- session identity is stripped, and `none` where it is empty. Whether `new_session` succeeds is an
-- input, and the text of the turn is left out: only turns with a text come here.
use dotty_stackchan.Prelude.{
  ℕ, ◌+◌, String, Bool, true, false, Option, none, some, List, [], ◌∷◌, ◌==◌, leb, if◌then◌else◌,
}

-- The prompts that Pi has in its conversation, the newest first: of which session, and when.
abbrev pub Context : Type 0
Context = List (Option String × ℕ)

pub record Session : Type 0 where
  pub active_session_id : Option String
  pub last_turn_at : Option ℕ
  pub has_pi_context : Bool

abbrev pub no_session : Session
no_session = record { active_session_id = none; last_turn_at = none; has_pi_context = false }

abbrev pub same_id : Option String → Option String → Bool
same_id none none = true
same_id none (some b) = false
same_id (some a) none = false
same_id (some a) (some b) = a == b

-- `now - last_turn_at >= idle_timeout`
abbrev pub is_idle : ℕ → Option ℕ → ℕ → Bool
is_idle timeout none now = false
is_idle timeout (some last) now = leb (last + timeout) now

pub data ResetReason : Type 0 where
  session_changed id_missing id_less_idle conversation_idle : ResetReason

-- The first three reasons, from the identity of the turn.
unfoldable pub session_reason :
    ℕ → Option String → ℕ → Option String → Option ℕ → Option ResetReason
session_reason timeout (some id) now active last =
    if same_id (some id) active then none else some session_changed
session_reason timeout none now (some a) last = some id_missing
session_reason timeout none now none last =
    if is_idle timeout last now then some id_less_idle else none

abbrev or_idle : ℕ → Option ℕ → ℕ → Option ResetReason → Option ResetReason
or_idle timeout last now none = if is_idle timeout last now then some conversation_idle else none
or_idle timeout last now (some reason) = some reason

unfoldable pub reset_reason : ℕ → Option String → ℕ → Session → Option ResetReason
unfolding session_reason
reset_reason timeout id now s =
    if s.has_pi_context
    then or_idle timeout s.last_turn_at now
        (session_reason timeout id now s.active_session_id s.last_turn_at)
    else none

abbrev pub prompted : Option String → ℕ → Context → Session × Context
prompted id now context = (
  record { active_session_id = id; last_turn_at = some now; has_pi_context = true },
  (id, now) ∷ context,
)

unfoldable pub after_reset :
    Option ResetReason → Bool → Option String → ℕ → Session × Context → Session × Context
after_reset none reset_ok id now (s, context) = prompted id now context
after_reset (some reason) true id now (s, context) = prompted id now []
after_reset (some reason) false id now (s, context) = (s, context)

-- `_response_serialized` up to the prompt: a turn is refused where the reset that it needs fails.
unfoldable pub take_voice_turn :
    ℕ → Bool → Option String → ℕ → Session × Context → Session × Context
take_voice_turn timeout reset_ok id now (s, context) =
    after_reset (reset_reason timeout id now s) reset_ok id now (s, context)

-- `cancel_pending_confirmation`: where the reset fails, Pi is closed, and its conversation with it.
unfoldable pub cancel_pending_confirmation : Option String → Session × Context → Session × Context
cancel_pending_confirmation none (s, context) = (s, context)
cancel_pending_confirmation (some id) (s, context) =
    if same_id (some id) s.active_session_id then (no_session, []) else (s, context)

pub data VoiceStep : Type 0 where
  speaks : Bool → Option String → ℕ → VoiceStep
  disconnects : Option String → VoiceStep

unfoldable pub converse : ℕ → List VoiceStep → Session × Context → Session × Context
converse timeout [] sc = sc
converse timeout (speaks reset_ok id now ∷ steps) sc =
    converse timeout steps (take_voice_turn timeout reset_ok id now sc)
converse timeout (disconnects id ∷ steps) sc =
    converse timeout steps (cancel_pending_confirmation id sc)
