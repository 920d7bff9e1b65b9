-- ===== src/Greeter/Fallback.antt =====
-- The greeter when the language model fails.
use dotty_stackchan.Prelude.{
  concat, after_prefix, String, ◌≡◌, refl, ◌⊎◌, inl, inr, Bool, true, false, Option, none, some,
  arith, ◌==◌, eq_iff, is_blank,
}
use dotty_stackchan.Dict.{lookup}
use dotty_stackchan.Perception.Types.{Event}
use dotty_stackchan.Perception.Update.{stripped_text}
use dotty_stackchan.Perception.Bus.{is_anonymous}
use dotty_stackchan.Greeter.Slots.{Log, Settings, take_slot}
use dotty_stackchan.Greeter.Wording.{post_process, current_window, template_fallback, sandwich}
use dotty_stackchan.Greeter.Handler.{
  World, generate_greeting, request_of, greet, on_face_recognized, handle,
}

-- The fallback starts with a letter, so kid mode takes nothing off it.
sandwich-template_fallback :
    (kid : Option Bool) (name : Option String) (identity window : String)
    → sandwich kid (template_fallback name identity window) ≡ template_fallback name identity window
unfolding sandwich template_fallback after_prefix concat
sandwich-template_fallback (some false) name identity window = refl
sandwich-template_fallback (some true) name identity window = refl
sandwich-template_fallback none name identity window = refl

is_blank-template_fallback :
    (name : Option String) (identity window : String)
    → is_blank (template_fallback name identity window) ≡ false
unfolding template_fallback concat
is_blank-template_fallback name identity window = refl

-- The model raises, or what is left of its answer is blank.
abbrev pub NoAnswer : World → String → Type 0
NoAnswer w identity =
    (w.reply identity (current_window w.hour) ≡ none)
    ⊎ ((text : String) × (w.reply identity (current_window w.hour) ≡ some text)
        × (is_blank (post_process text) ≡ true))

failed-answer :
    (w : World) (identity : String)
    → NoAnswer w identity
    → generate_greeting w identity (current_window w.hour)
      ≡ template_fallback (w.display_name identity) identity (current_window w.hour)
unfolding generate_greeting
failed-answer w identity (inl raised) = ground arith
failed-answer w identity (inr (text, answered, empty)) = ground arith

-- If the model raises, or answers with blank text, a recognised person of a named device whose
-- greeting is granted is greeted by the template, whatever the kid mode.
pub handle-fallback :
    (s : Settings) (w : World) (e : Event) (log : Log) (identity : String)
    → e.name ≡ "face_recognized"
    → is_anonymous e.device_id ≡ false
    → stripped_text (lookup "identity" e.payload) ≡ some identity
    → is_blank identity ≡ false
    → identity == "unknown" ≡ false
    → NoAnswer w identity
    → (take_slot s identity (some e.ts) w.clock w.today log).1 ≡ true
    → (handle s w e log).1
      ≡ some (record {
        device_id = e.device_id;
        text = template_fallback (w.display_name identity) identity (current_window w.hour);
        request_text = request_of identity;
      })
unfolding handle on_face_recognized greet
handle-fallback s w e log identity name named text full known failed granted = ground (
  arith,
  eq_iff e.name "face_recognized",
  failed-answer w identity failed,
  sandwich-template_fallback w.kid_mode (w.display_name identity) identity (current_window w.hour),
  is_blank-template_fallback (w.display_name identity) identity (current_window w.hour),
)
