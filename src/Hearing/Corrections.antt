-- ===== src/Hearing/Corrections.antt =====
-- The corrections of a recognised text in receiveAudioHandle.py: single words, and the phrase that a
-- part of the text comes closest to.
use dotty_stackchan.Prelude.{
  ℕ, zero, suc, ◌+◌, ◌-◌, ◌*◌, String, not, ◌&&◌, List, [], ◌∷◌, ltb, leb, if◌then◌else◌, length,
  take, drop, keep, is_blank, strip, to_lower, append, join, words,
}
use dotty_stackchan.Dict.{Dict, get_or}
use dotty_stackchan.Hearing.Phrases.{Classes}

abbrev pub asr_corrections : Dict String
asr_corrections =
    ("doty", "Dotty")
    ∷ ("dottie", "Dotty")
    ∷ ("duddy", "Dotty")
    ∷ ("dotie", "Dotty")
    ∷ ("dotti", "Dotty")
    ∷ ("dody", "Dotty")
    ∷ ("daughty", "Dotty")
    ∷ ("haughty", "Dotty")
    ∷ ("naughty", "Dotty")
    ∷ ("hardy", "Dotty")
    ∷ ("darty", "Dotty")
    ∷ ("dolly", "Dotty")
    ∷ ("dougie", "Dotty")
    ∷ ("dory", "Dotty")
    ∷ ("foto", "photo")
    ∷ ("pitcher", "picture")
    ∷ ("pikture", "picture")
    ∷ ("storey", "story")
    ∷ ("danse", "dance")
    ∷ ("mornin", "morning")
    ∷ ("nite", "night")
    ∷ ("singah", "sing a")
    ∷ []

-- A whole run of word characters that is a key, in any case, is exchanged.
unfoldable pub corrected : String → String
unfolding get_or to_lower
corrected run = get_or (to_lower run) run asr_corrections

-- `_apply_asr_corrections`; the first text is the run of word characters so far.
unfoldable pub correct_from : Classes → String → String → String
unfolding corrected append
correct_from k run String.[] = corrected run
correct_from k run (String.◌∷◌ c s) =
    let longer = correct_from k (append run (String.◌∷◌ c String.[])) s in
    let next = correct_from k "" s in
    if k.is_word c then longer else append (corrected run) (String.◌∷◌ c next)

abbrev pub apply_asr_corrections : Classes → String → String
apply_asr_corrections k s = correct_from k "" s

-- The phrases, with the least similarity in hundredths.
abbrev pub phrase_corrections : List (String × ℕ)
phrase_corrections =
    ("take a photo", 70)
    ∷ ("take a picture", 70)
    ∷ ("take a photo of me", 70)
    ∷ ("take a picture of me", 70)
    ∷ ("tell me a story", 70)
    ∷ ("sing a song", 70)
    ∷ ("sing the macarena", 70)
    ∷ ("dance", 80)
    ∷ ("do the macarena", 70)
    ∷ ("play tetris", 70)
    ∷ ("hall of the mountain king", 70)
    ∷ ("star wars", 75)
    ∷ ("pirates of the caribbean", 70)
    ∷ ("super mario", 70)
    ∷ ("play music", 75)
    ∷ ("what's your name", 70)
    ∷ ("what is your name", 70)
    ∷ ("who are you", 75)
    ∷ ("good morning", 70)
    ∷ ("good night", 70)
    ∷ []

-- `SequenceMatcher(None, a, b).ratio()`, in parts of which a hundredth has `hundredth`.
pub record Matcher : Type 0 where
  pub hundredth : ℕ
  pub ratio : String → String → ℕ

-- The best window so far; `ratio` is 0 before there is one.
pub record Best : Type 0 where
  pub ratio : ℕ
  pub phrase : String
  pub start : ℕ
  pub size : ℕ

abbrev pub no_best : Best
no_best = record { ratio = 0; phrase = ""; start = 0; size = 0 }

unfoldable pub window : List String → ℕ → ℕ → String
unfolding join
window ws start size = join " " (take size (drop start ws))

-- One window against one phrase.
unfoldable pub try_window : Matcher → List String → String → ℕ → ℕ → ℕ → Best → Best
unfolding window
try_window m ws canonical threshold size start best =
    let ratio = m.ratio (window ws start size) canonical in
    if leb (threshold * m.hundredth) ratio && ltb best.ratio ratio
    then record { ratio = ratio; phrase = canonical; start = start; size = size }
    else best

-- As many windows as given, from the one at `start` on.
unfoldable pub try_windows : Matcher → List String → String → ℕ → ℕ → ℕ → ℕ → Best → Best
unfolding try_window
try_windows m ws canonical threshold size start zero best = best
try_windows m ws canonical threshold size start (suc n) best =
    try_windows m ws canonical threshold size (start + 1) n
      (try_window m ws canonical threshold size start best)

unfoldable pub try_phrases : Matcher → List String → List (String × ℕ) → Best → Best
unfolding try_windows words
try_phrases m ws [] best = best
try_phrases m ws ((canonical, threshold) ∷ phrases) best =
    let size = length (words canonical) in
    try_phrases m ws phrases (
      if ltb (length ws) size
      then best
      else try_windows m ws canonical threshold size 0 (length ws - size + 1) best)

unfoldable pub replace_window : List String → Best → String
unfolding join
replace_window original best = join " " (
    keep (λ part. not (is_blank part))
      (join " " (take best.start original)
        ∷ best.phrase
        ∷ join " " (drop (best.start + best.size) original)
        ∷ []))

-- `_apply_phrase_corrections`
unfoldable pub apply_phrase_corrections : Matcher → String → String
unfolding try_phrases replace_window words to_lower strip
apply_phrase_corrections m s =
    let ws = words (strip (to_lower s)) in
    let best = try_phrases m ws phrase_corrections no_best in
    if ltb (length ws) 2
    then s
    else if ltb 0 best.ratio && leb (best.start + best.size) (length (words s))
    then replace_window (words s) best
    else s
