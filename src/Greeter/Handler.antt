-- ===== src/Greeter/Handler.antt =====
-- The event handler of dotty-behaviour/greeter/greeter.py.
use dotty_stackchan.Prelude.{
  append, ℕ, String, Bool, not, ◌&&◌, Option, none, some, List, [], ◌∷◌, ◌==◌, if◌then◌else◌,
  is_blank,
}
use dotty_stackchan.Dict.{lookup, insert}
use dotty_stackchan.Perception.Types.{Value, Event}
use dotty_stackchan.Perception.Update.{stripped_text}
use dotty_stackchan.Perception.Bus.{is_anonymous}
use dotty_stackchan.Greeter.Slots.{Settings, Log, take_slot}
use dotty_stackchan.Greeter.Wording.{current_window, post_process, template_fallback, sandwich}

-- What a run of the handler reads from outside: the clock with its date and hour in the local time
-- zone, the kid-mode provider, the model's answer to the prompt, and the household. `none` is an
-- exception of the provider or of the model.
pub record World : Type 0 where
  pub clock : ℕ
  pub today : String
  pub hour : ℕ
  pub kid_mode : Option Bool
  pub reply : String → String → Option String
  pub display_name : String → Option String

-- The call of the speech pusher, with `request_text`.
pub record Push : Type 0 where
  pub device_id : String
  pub text : String
  pub request_text : String

-- `_generate_greeting`, from the answer to the prompt.
unfoldable pub generate_greeting : World → String → String → String
generate_greeting w identity window =
    let fallback = template_fallback (w.display_name identity) identity window in
    elim (w.reply identity window) [
      | none ↦ fallback
      | some text ↦
          let cleaned = post_process text in if is_blank cleaned then fallback else cleaned
    ]

-- `_safe_push`
unfoldable pub safe_push : String → String → String → Option Push
safe_push device_id text request_text =
    if is_blank text
    then none
    else some (record { device_id = device_id; text = text; request_text = request_text })

abbrev pub or_unknown : String → String
or_unknown identity = if is_blank identity then "unknown" else identity

abbrev pub request_of : String → String
request_of identity = append "face:" identity

-- What `_on_face_recognized` does for an identity.
unfoldable pub greet : Settings → World → Event → String → Log → Log × Option Push
unfolding safe_push
greet s w e identity log =
    if identity == "unknown" && not s.greet_unknown
    then (log, none)
    else let (log', granted) = take_slot s identity (some e.ts) w.clock w.today log in
      let text : String =
        if identity == "unknown"
        then "Hello! I don't think we've met."
        else generate_greeting w identity (current_window w.hour) in
      (
        log',
        if granted
            then safe_push e.device_id (sandwich w.kid_mode text) (request_of identity)
            else none,
      )

-- `_on_face_recognized`; an identity that is no text raises, and the loop goes on.
unfoldable pub on_face_recognized : Settings → World → Event → Log → Log × Option Push
on_face_recognized s w e log =
    if is_anonymous e.device_id
    then (log, none)
    else elim (stripped_text (lookup "identity" e.payload)) [
      | none ↦ (log, none)
      | some identity ↦ greet s w e (or_unknown identity) log
    ]

-- `_handle`
unfoldable pub handle : Settings → World → Event → Log → Log × Option Push
handle s w e log =
    if e.name == "face_recognized"
    then on_face_recognized s w e log
    else if e.name == "face_detected" && s.use_face_detected
    then on_face_recognized s w
        (record e {
          name = "face_recognized";
          payload = insert "identity" (Value.text "unknown") e.payload;
        })
        log
    else (log, none)

abbrev pub pushed : Option Push → List Push → List Push
pushed none ps = ps
pushed (some p) ps = p ∷ ps

-- The loop of `run` over events that arrive on one date, each in its own world.
unfoldable pub run : Settings → List (World × Event) → Log → Log × List Push
run s [] log = (log, [])
run s ((w, e) ∷ es) log =
    let (log', push) = handle s w e log in
    let (final, rest) = run s es log' in (final, pushed push rest)
