-- ===== src/Voice/Spoken.antt =====
-- What is said of a reply: the face and the filter of the voice path together.
use dotty_stackchan.Prelude.{
  Char, String, ◌≡◌, refl, sym, ap, ◌∙◌, inl, inr, Bool, true, false, not, ◌||◌, Option, none, some,
  List, [], ◌∷◌, ◌++◌, arith, Bool-cases, Option-cases, keep, is_blank, lstrip, append, concat,
}
use dotty_stackchan.Voice.Faces.{is_allowed, has_face, opening, enforce_from, enforce_leading_emoji}
use dotty_stackchan.Voice.Filter.{
  Matching, Tier, content_filter_match, content_filter_replacement, filter_tts_stream,
}

abbrev pub full : List String → List String
full chunks = keep (λ c. not (is_blank c)) chunks

append-blank : (s t : String) → is_blank s ≡ true → append s t ≡ t
unfolding append
append-blank String.[] t h = refl
append-blank (String.◌∷◌ c s) t h = absurd (ground arith)

concat-full : (chunks : List String) → concat (full chunks) ≡ concat chunks
unfolding concat
concat-full [] = refl
concat-full (c ∷ chunks) = elim (Bool-cases (is_blank c)) [
  | inl blank ↦ rw blank (concat-full chunks ∙ sym (append-blank c (concat chunks) blank))
  | inr said ↦ rw said (ap (append c) (concat-full chunks))
]

has_face-concat :
    (s : String) (rest : List String) → has_face s ≡ true → has_face (concat (s ∷ rest)) ≡ true
unfolding concat append
has_face-concat String.[] rest h = absurd (ground arith)
has_face-concat (String.◌∷◌ c s) rest h = h

has_face-opening :
    (is_symbol : Char → Bool) (so_far : String) (rest : List String)
    → has_face (concat (opening is_symbol so_far ++ rest)) ≡ true
unfolding opening concat append is_allowed
has_face-opening is_symbol so_far rest = elim (Bool-cases (has_face so_far)) [
  | inl faced ↦ rw faced (has_face-concat so_far rest faced)
  | inr bare ↦ rw bare refl
]

has_face-enforce_from :
    (is_symbol : Char → Bool) (leading : String) (chunks : List String)
    → has_face (concat (enforce_from is_symbol leading chunks)) ≡ true
unfolding enforce_from concat append is_allowed
has_face-enforce_from is_symbol leading [] = refl
has_face-enforce_from is_symbol leading (c ∷ chunks) =
    elim (Bool-cases (is_blank c || is_blank (lstrip (append leading c)))) [
      | inl blank ↦ rw blank (has_face-enforce_from is_symbol (append leading c) chunks)
      | inr said ↦ rw said (has_face-opening is_symbol (lstrip (append leading c)) (full chunks))
    ]

-- The reply as `LLMProvider` says it.
abbrev pub spoken : (Char → Bool) → Matching → Bool → List String → List String
spoken is_symbol r kid_mode chunks =
    (filter_tts_stream r kid_mode (enforce_leading_emoji is_symbol chunks)).0

has_face-filter_tts_stream :
    (r : Matching) (kid_mode : Bool) (chunks : List String)
    → has_face (concat chunks) ≡ true
    → has_face (concat (filter_tts_stream r kid_mode chunks).0) ≡ true
unfolding filter_tts_stream is_allowed concat append
has_face-filter_tts_stream r false chunks h = h
has_face-filter_tts_stream r true chunks h =
    elim (Option-cases (content_filter_match r (concat (full chunks)))) [
      | inl clean ↦ rw clean (ap has_face (concat-full chunks) ∙ h)
      | inr (tier, hit) ↦ rw hit refl
    ]

-- Whatever the model sends, in whatever chunks, empty ones included, and in either mode, what is said
-- starts with an allowed emoji.
pub has_face-spoken :
    (is_symbol : Char → Bool) (r : Matching) (kid_mode : Bool) (chunks : List String)
    → has_face (concat (spoken is_symbol r kid_mode chunks)) ≡ true
has_face-spoken is_symbol r kid_mode chunks =
    has_face-filter_tts_stream r kid_mode (enforce_leading_emoji is_symbol chunks)
      (has_face-enforce_from is_symbol "" chunks)

-- What a turn says and reports, from the tier that its whole text is blocked by.
abbrev verdict_of : Option Tier → String → String × List Tier
verdict_of none text = (text, [])
verdict_of (some tier) text = (content_filter_replacement, tier ∷ [])

abbrev pub verdict : Matching → String → String × List Tier
verdict r text = verdict_of (content_filter_match r text) text

append-nil-text : (s : String) → append s "" ≡ s
unfolding append
append-nil-text String.[] = refl
append-nil-text (String.◌∷◌ c s) = ap (String.◌∷◌ c) (append-nil-text s)

verdict-full :
    (r : Matching) (chunks : List String)
    → (concat (filter_tts_stream r true chunks).0, (filter_tts_stream r true chunks).1)
      ≡ verdict_of (content_filter_match r (concat (full chunks))) (concat (full chunks))
unfolding filter_tts_stream concat
verdict-full r chunks = elim (Option-cases (content_filter_match r (concat (full chunks)))) [
  | inl clean ↦ rw clean refl
  | inr (tier, hit) ↦ rw hit (ap (λ s. (s, tier ∷ [])) (append-nil-text content_filter_replacement))
]

-- In kid mode, the filter decides on the text of the whole turn, however it is cut into chunks: a
-- clean text is said as it is and no hit is reported, any other is replaced as a whole and reported
-- once.
pub filter_tts_stream-verdict :
    (r : Matching) (chunks : List String)
    → (concat (filter_tts_stream r true chunks).0, (filter_tts_stream r true chunks).1)
      ≡ verdict r (concat chunks)
filter_tts_stream-verdict r chunks = verdict-full r chunks ∙ ap (verdict r) (concat-full chunks)
