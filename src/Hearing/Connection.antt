-- ===== src/Hearing/Connection.antt =====
-- What receiveAudioHandle.py keeps on a connection, and what a turn meets and does.
use dotty_stackchan.Prelude.{
  ℕ, String, Bool, true, false, Option, List, [], ◌∷◌, ◌++◌, any, if◌then◌else◌,
}
use dotty_stackchan.Hearing.Phrases.{Classes}
use dotty_stackchan.Hearing.Corrections.{Matcher}

-- The attributes of `conn` that the turn handling reads or writes.
pub record Connection : Type 0 where
  pub toggles_synced : Bool
  pub current_speaker : Option String
  pub need_bind : Bool
  pub bind_code : Option String
  pub max_output_size : ℕ
  pub active_turn_id : Option String
  pub activity_start_ts : ℕ
  pub pending_activity_turns : List (String × ℕ)
  pub client_is_speaking : Bool
  pub client_listen_mode : String
  pub client_abort : Bool
  pub current_state : Option String
  pub desired_state : Option String
  pub dance_running : Bool
  pub dance_generation : ℕ
  pub room_description : Option String
  pub room_match_person_id : Option String
  pub close_after_chat : Bool
  pub last_activity_time : ℕ
  pub just_woken_up : Bool
  pub resume_pending : Bool

-- What `conn.chat` is given: the content, the turn, and the request.
pub record Prompt : Type 0 where
  pub content : String
  pub turn_id : String
  pub request_text : String

pub data Doing : Type 0 where
  toggle_set : String → Bool → Doing
  asr_completed : String → String → Doing
  turn_completed : String → Doing
  turn_aborted : String → Doing
  dance_cancelled abort_handled : Doing
  stt_message : String → Doing
  thinking_shown : Doing
  state_set : String → Doing
  photo_taken : String → Doing
  danced : String → Doing
  chat_submitted : Prompt → Doing
  speech_queued : Option String → Doing
  connection_closed : Doing
  -- An exception that ends the turn.
  raised : Doing

-- Where a turn may raise, but for the code that catches what is sent to the device: the clean-up of a
-- dance, `handleAbortMessage`, `handle_user_intent`, the recognised text and the thinking frame that
-- are sent, the camera's call, `_handle_dance`, the executor, the test of the device's limit, the
-- messages on the limit and on the binding, and the closing.
pub data Await : Type 0 where
  dance_cleanup abort intent stt thinking photo dance executor limit_check limit bind closing :
      Await

-- A recognised text in braces: no speaker and content in it, both of them but no language, or all, or
-- all with a content that is no text.
pub data SpokenEnvelope : Type 0 where
  no_speaker : SpokenEnvelope
  no_language : String → SpokenEnvelope
  spoken : String → String → SpokenEnvelope
  no_text : SpokenEnvelope

-- The `content` of a text that begins with a brace: no JSON or no content, one that is no text, or a
-- text.
pub data Content : Type 0 where
  unread not_text : Content
  content : String → Content

-- What a turn meets: the settings, the clock, the new turn's id, the JSON reader, and what the code
-- of the xiaozhi server does: whether the device's limit is reached, `handleAbortMessage`,
-- `handle_user_intent`, and the camera, and which of it raises.
pub record Surroundings : Type 0 where
  pub min_chars : ℕ
  pub kid_on : Bool
  pub smart_on : Bool
  pub now : ℕ
  pub turn_id : String
  pub classes : Classes
  pub matcher : Matcher
  pub read : String → SpokenEnvelope
  pub json_content : String → Content
  pub limit_reached : Bool
  pub after_abort : Connection → Connection
  pub handle_user_intent : String → Connection → Connection × Bool
  pub look : String → Option String
  pub choose : List String → String
  pub fails : Await → Bool

abbrev pub Did : Type 0
Did = Connection × List Doing

abbrev is_raise : Doing → Bool
is_raise raised = true
is_raise _ = false

abbrev pub has_raised : List Doing → Bool
has_raised done = any is_raise done

-- What is done, or the exception instead.
abbrev pub attempt : Surroundings → Await → List Doing → List Doing
attempt w a done = if w.fails a then raised ∷ [] else done

-- One after the other, unless the first raises.
infixl 5 ◌▹◌
abbrev pub ◌▹◌ : Did → (Connection → Did) → Did
(c, done) ▹ f = let r = f c in if has_raised done then (c, done) else (r.0, done ++ r.1)
