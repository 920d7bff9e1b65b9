-- ===== src/Voice/Isolation.antt =====
-- That Pi never answers one conversation with another one in its context.
use dotty_stackchan.Prelude.{
  ℕ, ◌+◌, ◌<◌, String, ◌≡◌, refl, sym, ap, inl, inr, Bool, true, false, Option, none, some, List,
  [], ◌∷◌, arith, eq_iff, Bool-cases,
}
use mathlib.Core.Path.{subst}
use dotty_stackchan.Voice.Session.{
  ResetReason, after_reset, Context, Session, no_session, same_id, session_reason, reset_reason,
  prompted, take_voice_turn, cancel_pending_confirmation, VoiceStep, speaks, disconnects, converse,
}

-- A context of one conversation, its newest prompt at `last`: all prompts are of the session, each
-- less than the timeout after the one before.
abbrev pub IsOneConversation : ℕ → Option String → ℕ → Context → Type 0
IsOneConversation timeout id last [] = Unit
IsOneConversation timeout id last ((j, at_time) ∷ context) =
    (j ≡ id) × (last < at_time + timeout) × IsOneConversation timeout id at_time context

-- The context belongs to the active session, and its newest prompt came at the last turn.
abbrev pub IsIsolated : ℕ → Session × Context → Type 0
IsIsolated timeout (s, []) = Unit
IsIsolated timeout (s, (id, at_time) ∷ context) =
    (s.has_pi_context ≡ true)
    × (s.active_session_id ≡ id)
    × (s.last_turn_at ≡ some at_time)
    × IsOneConversation timeout id at_time context

same_id-eq : (a b : Option String) → same_id a b ≡ true → a ≡ b
same_id-eq none none h = refl
same_id-eq none (some b) h = absurd (ground arith)
same_id-eq (some a) none h = absurd (ground arith)
same_id-eq (some a) (some b) h = ap some (ground (arith, eq_iff a b))

-- Without a reason for a reset, the turn is of the active session and comes in time.
reset_reason-none :
    (timeout now last : ℕ) (id active : Option String)
    → reset_reason timeout id now
        (record { active_session_id = active; last_turn_at = some last; has_pi_context = true })
      ≡ none
    → (active ≡ id) × (now < last + timeout)
unfolding reset_reason session_reason
reset_reason-none timeout now last none none h = (refl, ground arith)
reset_reason-none timeout now last none (some a) h = absurd (ground arith)
reset_reason-none timeout now last (some id) active h =
    (sym (same_id-eq (some id) active (ground arith)), ground arith)

IsIsolated-prompted :
    (timeout : ℕ) (id : Option String) (now : ℕ) (s : Session) (context : Context)
    → reset_reason timeout id now s ≡ none
    → IsIsolated timeout (s, context)
    → IsIsolated timeout (prompted id now context)
IsIsolated-prompted timeout id now s [] kept h = (refl, refl, refl, tt)
IsIsolated-prompted timeout id now s ((j, at_time) ∷ context) kept (has, active, last, h) =
    let timely =
      reset_reason-none timeout now at_time id j (rw (sym has, sym active, sym last) kept) in
    (
      refl,
      refl,
      refl,
      (timely.0, timely.1, subst (λ k. IsOneConversation timeout k at_time context) timely.0 h),
    )

IsIsolated-after_reset :
    (timeout : ℕ) (reason : Option ResetReason) (reset_ok : Bool) (id : Option String) (now : ℕ)
    (s : Session) (context : Context)
    → reset_reason timeout id now s ≡ reason
    → IsIsolated timeout (s, context)
    → IsIsolated timeout (after_reset reason reset_ok id now (s, context))
unfolding after_reset
IsIsolated-after_reset timeout none reset_ok id now s context kept h =
    IsIsolated-prompted timeout id now s context kept h
IsIsolated-after_reset timeout (some reason) true id now s context reset h = (refl, refl, refl, tt)
IsIsolated-after_reset timeout (some reason) false id now s context reset h = h

IsIsolated-take_voice_turn :
    (timeout : ℕ) (reset_ok : Bool) (id : Option String) (now : ℕ) (s : Session) (context : Context)
    → IsIsolated timeout (s, context)
    → IsIsolated timeout (take_voice_turn timeout reset_ok id now (s, context))
unfolding take_voice_turn
IsIsolated-take_voice_turn timeout reset_ok id now s context h =
    IsIsolated-after_reset timeout (reset_reason timeout id now s) reset_ok id now s context refl h

IsIsolated-cancel :
    (timeout : ℕ) (id : Option String) (s : Session) (context : Context)
    → IsIsolated timeout (s, context)
    → IsIsolated timeout (cancel_pending_confirmation id (s, context))
unfolding cancel_pending_confirmation
IsIsolated-cancel timeout none s context h = h
IsIsolated-cancel timeout (some id) s context h =
    elim (Bool-cases (same_id (some id) s.active_session_id)) [
      | inl mine ↦ rw mine tt
      | inr other ↦ rw other h
    ]

IsIsolated-converse :
    (timeout : ℕ) (steps : List VoiceStep) (sc : Session × Context)
    → IsIsolated timeout sc
    → IsIsolated timeout (converse timeout steps sc)
unfolding converse
IsIsolated-converse timeout [] sc h = h
IsIsolated-converse timeout (speaks reset_ok id now ∷ steps) (s, context) h =
    IsIsolated-converse timeout steps (take_voice_turn timeout reset_ok id now (s, context))
      (IsIsolated-take_voice_turn timeout reset_ok id now s context h)
IsIsolated-converse timeout (disconnects id ∷ steps) (s, context) h =
    IsIsolated-converse timeout steps (cancel_pending_confirmation id (s, context))
      (IsIsolated-cancel timeout id s context h)

-- Whatever turns and disconnections come, and whichever resets fail, the prompts in Pi's context are
-- all of the active session, and each came less than the idle timeout after the one before it.
pub converse-IsIsolated :
    (timeout : ℕ) (steps : List VoiceStep)
    → IsIsolated timeout (converse timeout steps (no_session, []))
converse-IsIsolated timeout steps = IsIsolated-converse timeout steps (no_session, []) tt
