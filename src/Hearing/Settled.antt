-- ===== src/Hearing/Settled.antt =====
-- That every turn that begins is settled, unless an exception ends it: it is reported completed, or
-- given to the model.
use dotty_stackchan.Prelude.{
  ◌≤◌, String, ◌≡◌, refl, ◌⊎◌, inl, inr, true, false, not, ◌&&◌, Option, none, some, List, [], ◌∷◌,
  ◌++◌, arith, ◌==◌, eq_refl, ltb,
}
use dotty_stackchan.Prelude.{if_cases}
use dotty_stackchan.Hearing.Connection.{
  Connection, Doing, asr_completed, Surroundings, Did, ◌▹◌, has_raised, attempt, raised, photo,
  photo_taken, stt, stt_message, thinking, thinking_shown, intent, limit_check,
}
use dotty_stackchan.Hearing.Tally.{
  begun, settled, begun-append, settled-append, has_raised-append, Tally, Tally-then,
}
use dotty_stackchan.Hearing.Turn.{
  truthy, dance_or_chat, tell_or_else, help_or_else, look_or_else, change_or_else, respond, answer,
  end_predecessor, end_dance, handle_abort, aborted_turn, intent_or_respond, begin_turn, accept,
  hear, start_to_chat, user_text_of, speaker_and_content,
}
use dotty_stackchan.Hearing.Replies.{
  submit_chat, send_set_state, state_prompt, sync_toggles_once, cancel_active_dance, max_out_size,
  check_bind_device, wake_prompt,
}
use dotty_stackchan.Hearing.Phrases.{
  detect_state_phrase, is_help_request, is_vision_request, is_noise,
}
use dotty_stackchan.Hearing.Corrections.{apply_asr_corrections, apply_phrase_corrections}

module _ (w : Surroundings) where
  -- The turn neither begins nor is settled.
  abbrev IsQuiet : Did → Type 0
  IsQuiet d = Tally w.turn_id 0 0 d.1

  -- The turn does not begin, and is settled once.
  abbrev IsOneReply : Did → Type 0
  IsOneReply d = Tally w.turn_id 0 1 d.1

  Tally-submit_chat : (request s : String) (c : Connection) → IsOneReply (submit_chat w request s c)
  unfolding submit_chat
  Tally-submit_chat request s c = ground (arith, eq_refl w.turn_id)

  Tally-dance_or_chat :
      (actual user : String) (c : Connection) → IsOneReply (dance_or_chat w actual user c)
  unfolding dance_or_chat
  Tally-dance_or_chat actual user c =
      ground (arith, eq_refl w.turn_id, Tally-submit_chat user actual c)

  Tally-tell_or_else :
      (actual user : String) (o : Option String) (c : Connection)
      → IsOneReply (tell_or_else w actual user o c)
  unfolding tell_or_else
  Tally-tell_or_else actual user none c = Tally-dance_or_chat actual user c
  Tally-tell_or_else actual user (some description) c = Tally-submit_chat user _ c

  Tally-look_or_else :
      (actual user : String) (c : Connection) → IsOneReply (look_or_else w actual user c)
  unfolding look_or_else
  Tally-look_or_else actual user c =
      if_cases IsOneReply (is_vision_request user) _ _
        (λ looks.
          Tally-then (c, attempt w photo (photo_taken user ∷ []))
            (tell_or_else w actual user (truthy (w.look user))) (ground arith)
            (Tally-tell_or_else actual user (truthy (w.look user)) c))
        (λ other. Tally-dance_or_chat actual user c)

  Tally-help_or_else :
      (actual user : String) (c : Connection) → IsOneReply (help_or_else w actual user c)
  unfolding help_or_else
  Tally-help_or_else actual user c =
      if_cases IsOneReply (is_help_request user) _ _ (λ help. Tally-submit_chat user _ c)
        (λ other. Tally-look_or_else actual user c)

  Tally-change_or_else :
      (actual user : String) (o : Option (String × String)) (c : Connection)
      → IsOneReply (change_or_else w actual user o c)
  unfolding change_or_else
  Tally-change_or_else actual user none c = Tally-help_or_else actual user c
  Tally-change_or_else actual user (some (state, ack)) c =
      Tally-then (send_set_state state c) (submit_chat w user (state_prompt state ack))
        (ground arith) (Tally-submit_chat user _ _)

  Tally-answer : (actual user : String) (c : Connection) → IsOneReply (answer w actual user c)
  unfolding answer
  Tally-answer actual user c =
      if_cases IsOneReply _ _ _
        (λ wakes.
          Tally-then (send_set_state "idle" c) (submit_chat w user wake_prompt)
            (record { begins = refl; most = omega arith; settles = inl refl })
            (Tally-submit_chat user _ _))
        (λ other. Tally-change_or_else actual user (detect_state_phrase user) c)

  Tally-respond : (actual : String) (c : Connection) → IsOneReply (respond w actual c)
  unfolding respond
  Tally-respond actual c =
      elim (user_text_of w actual)
        as (λ o.
          IsOneReply (elim o as (λ _. Did) [
            | none ↦ (c, raised ∷ [])
            | some user ↦ answer w actual user c
          ])) [ none ↦ ground arith | some user ↦ Tally-answer actual user c ]

  Tally-intent_or_respond :
      (actual : String) (c : Connection) → IsOneReply (intent_or_respond w actual c)
  unfolding intent_or_respond
  Tally-intent_or_respond actual c =
      let i = w.handle_user_intent actual c in
      let shows : Connection → Did = λ d. (d, attempt w thinking (thinking_shown ∷ [])) in
      let told : Did = (i.0, attempt w stt (stt_message actual ∷ [])) in
      if_cases IsOneReply (w.fails intent) _ _ (λ fails. ground arith)
        (λ answers.
          if_cases IsOneReply i.1 _ _ (λ handled. ground (arith, eq_refl w.turn_id))
            (λ other.
              Tally-then (told ▹ shows) (respond w actual)
                (Tally-then told shows (ground arith) (ground arith)) (Tally-respond actual _)))

  IsQuiet-aborted_turn :
      (previous : Option String) (c : Connection) → IsQuiet (c, aborted_turn w.turn_id previous)
  IsQuiet-aborted_turn none c = ground arith
  IsQuiet-aborted_turn (some turn_id) c = ground arith

  IsQuiet-end_dance : (c : Connection) → IsQuiet (end_dance w c)
  unfolding cancel_active_dance
  IsQuiet-end_dance c = ground arith

  IsQuiet-end_predecessor :
      (previous : Option String) (c : Connection) → IsQuiet (end_predecessor w previous c)
  unfolding end_predecessor
  IsQuiet-end_predecessor previous c =
      if_cases IsQuiet (c.client_is_speaking && not (c.client_listen_mode == "manual")) _ _
        (λ speaks.
          Tally-then ((c, aborted_turn w.turn_id previous) ▹ end_dance w) (handle_abort w)
            (Tally-then (c, aborted_turn w.turn_id previous) (end_dance w)
              (IsQuiet-aborted_turn previous c) (IsQuiet-end_dance c))
            (ground arith))
        (λ silent. record { begins = refl; most = omega arith; settles = inl refl })

  abbrev first_step : String → Connection → Did
  first_step s c = (
    record c { activity_start_ts = w.now; active_turn_id = some w.turn_id },
    asr_completed w.turn_id s ∷ [],
  )

  Tally-begin_turn : (s : String) (c : Connection) → Tally w.turn_id 1 1 (begin_turn w s c).1
  unfolding begin_turn
  Tally-begin_turn s c =
      Tally-then (first_step s c ▹ end_predecessor w c.active_turn_id)
        (λ d. intent_or_respond w s (record d { client_abort = false }))
        (Tally-then (first_step s c) (end_predecessor w c.active_turn_id)
          (ground (arith, eq_refl w.turn_id))
          (IsQuiet-end_predecessor c.active_turn_id (first_step s c).0))
        (Tally-intent_or_respond s _)

  -- The turn begins at most once, is settled at most as often, and exactly as often unless an
  -- exception ended it.
  pub record IsSettled (d : Did) : Type 0 where
    pub once : begun w.turn_id d.1 ≤ 1
    pub most : settled w.turn_id d.1 ≤ begun w.turn_id d.1
    pub settles : (settled w.turn_id d.1 ≡ begun w.turn_id d.1) ⊎ (has_raised d.1 ≡ true)

  IsSettled-quiet : {d : Did} → IsQuiet d → IsSettled d
  IsSettled-quiet h = record {
    once = omega (arith, h.begins);
    most = omega (arith, h.most);
    settles = inl (omega (arith, h.begins, h.most));
  }

  IsSettled-turn : {d : Did} → Tally w.turn_id 1 1 d.1 → IsSettled d
  IsSettled-turn h = record {
    once = omega (arith, h.begins);
    most = omega (arith, h.begins, h.most);
    settles = elim h.settles [
      | inl all ↦ inl (omega (arith, h.begins, all))
      | inr stopped ↦ inr stopped
    ];
  }

  IsSettled-append :
      (c : Connection) (xs ys : List Doing)
      → Tally w.turn_id 0 0 xs
      → IsSettled (c, ys)
      → IsSettled (c, xs ++ ys)
  IsSettled-append c xs ys h k = record {
    once = omega (arith, begun-append w.turn_id xs ys, h.begins, k.once);
    most = omega (
      arith,
      begun-append w.turn_id xs ys,
      settled-append w.turn_id xs ys,
      h.begins,
      h.most,
      k.most,
    );
    settles = elim k.settles [
      | inl all ↦ inl (
          omega (
            arith,
            begun-append w.turn_id xs ys,
            settled-append w.turn_id xs ys,
            h.begins,
            h.most,
            all,
          ))
      | inr stopped ↦ inr (ground (arith, has_raised-append xs ys, stopped))
    ];
  }

  IsSettled-then :
      (d : Did) (f : Connection → Did) → IsQuiet d → IsSettled (f d.0) → IsSettled (d ▹ f)
  IsSettled-then d f h k =
      if_cases IsSettled (has_raised d.1) _ _ (λ stopped. IsSettled-quiet h)
        (λ on. IsSettled-append (f d.0).0 d.1 (f d.0).1 h k)

  IsSettled-accept :
      (speaker : Option String) (s : String) (c : Connection) → IsSettled (accept w speaker s c)
  unfolding accept max_out_size check_bind_device
  IsSettled-accept speaker s c =
      let c' = record c { current_speaker = truthy speaker } in
      if_cases IsSettled c.need_bind _ _ (λ bind. IsSettled-quiet (ground arith))
        (λ bound.
          if_cases IsSettled (ltb 0 c.max_output_size && w.fails limit_check) _ _
            (λ fails. IsSettled-quiet (ground arith))
            (λ checked.
              if_cases IsSettled (ltb 0 c.max_output_size && w.limit_reached) _ _
                (λ limit. IsSettled-quiet (ground arith))
                (λ free. IsSettled-turn (Tally-begin_turn s c'))))

  IsSettled-hear :
      (speaker : Option String) (said : String) (c : Connection) → IsSettled (hear w speaker said c)
  unfolding hear sync_toggles_once
  IsSettled-hear speaker said c =
      if_cases IsSettled (is_noise w.min_chars said) _ _ (λ noise. IsSettled-quiet (ground arith))
        (λ heard.
          IsSettled-then (sync_toggles_once w c)
            (accept w speaker
              (apply_phrase_corrections w.matcher (apply_asr_corrections w.classes said)))
            (ground arith) (IsSettled-accept _ _ _))

-- Whatever is recognised, in whatever state of the connection, whatever the server's intents and the
-- camera give, and whichever of the calls of the server's code raise, a turn is reported to begin at
-- most once, and is settled at most as often: reported completed, or given to the model as the active
-- turn. Where no exception ends the handling, a turn that began is settled, once. An exception after
-- the turn began may leave it unsettled.
pub start_to_chat-IsSettled :
    (w : Surroundings) (s : String) (c : Connection) → IsSettled w (start_to_chat w s c)
unfolding start_to_chat
start_to_chat-IsSettled w s c =
    elim (speaker_and_content w s)
      as (λ o. IsSettled w (elim o as (λ _. Did) [
        | none ↦ (c, raised ∷ [])
        | some (speaker, said) ↦ hear w speaker said c
      ])) [
        | none ↦ record { once = ground arith; most = ground arith; settles = inr refl }
        | some (speaker, said) ↦ IsSettled-hear w speaker said c
      ]
