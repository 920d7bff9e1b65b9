-- ===== src/Voice/Blocked.antt =====
-- That the filter of custom-providers/textUtils.py finds a blocked term wherever it stands.
use dotty_stackchan.Prelude.{
  ℕ, ◌≤◌, Char, String, ◌≡◌, refl, sym, ap, ◌∙◌, ◌⊎◌, inl, inr, Bool, true, false, Option, none,
  some, List, [], ◌∷◌, arith, any, append,
}
use mathlib.Core.Path.{subst}
use dotty_stackchan.Voice.Filter.{
  is_whole, is_start, Matching, Term, word, stem, Tier, alert, log, redirect, alert_terms,
  log_terms, redirect_terms, after_term, ends_word, matches_here, finds, content_filter_match,
}

-- A text matches a term letter for letter, case folded as `re` folds it.
abbrev pub Folds : Matching → String → String → Type 0
Folds r String.[] String.[] = Unit
Folds r (String.◌∷◌ a term) (String.◌∷◌ c s) = (r.same a c ≡ true) × Folds r term s
Folds r _ _ = ⊥

after_term-append :
    (r : Matching) (term w rest : String)
    → Folds r term w
    → after_term r term (append w rest) ≡ some rest
unfolding after_term append
after_term-append r String.[] String.[] rest h = refl
after_term-append r String.[] (String.◌∷◌ c s) rest h = absurd h
after_term-append r (String.◌∷◌ a term) String.[] rest h = absurd h
after_term-append r (String.◌∷◌ a term) (String.◌∷◌ c s) rest h =
    rw h.0 (after_term-append r term s rest h.1)

-- A text is a term of the list, case folded, in a place where what follows lets it end.
abbrev pub IsTerm : Matching → Term → String → String → Type 0
IsTerm r (word term) w rest = Folds r term w × (ends_word r rest ≡ true)
IsTerm r (stem term) w rest = Folds r term w

abbrev pub HasTerm : Matching → List Term → String → String → Type 0
HasTerm r [] w rest = ⊥
HasTerm r (t ∷ terms) w rest = IsTerm r t w rest ⊎ HasTerm r terms w rest

matches_here-IsTerm :
    (r : Matching) (t : Term) (w rest : String)
    → IsTerm r t w rest
    → matches_here r t (append w rest) ≡ true
unfolding matches_here
matches_here-IsTerm r (word term) w rest h =
    ap (is_whole r) (after_term-append r term w rest h.0) ∙ h.1
matches_here-IsTerm r (stem term) w rest h = ap is_start (after_term-append r term w rest h)

any-HasTerm :
    (r : Matching) (terms : List Term) (w rest : String)
    → HasTerm r terms w rest
    → any (λ t. matches_here r t (append w rest)) terms ≡ true
any-HasTerm r [] w rest h = absurd h
any-HasTerm r (t ∷ terms) w rest (inl here) = ground (arith, matches_here-IsTerm r t w rest here)
any-HasTerm r (t ∷ terms) w rest (inr there) = ground (arith, any-HasTerm r terms w rest there)

-- Whether the last character before the term is `\w`.
abbrev pub ends_inside : Matching → Bool → String → Bool
ends_inside r inside String.[] = inside
ends_inside r inside (String.◌∷◌ c s) = ends_inside r (r.is_word c) s

finds-here :
    (r : Matching) (terms : List Term) (s : String)
    → any (λ t. matches_here r t s) terms ≡ true
    → finds r terms false s ≡ true
unfolding finds
finds-here r terms String.[] h = h
finds-here r terms (String.◌∷◌ c s) h = ground arith

finds-cons :
    (r : Matching) (terms : List Term) (inside : Bool) (c : Char) (s : String)
    → finds r terms (r.is_word c) s ≡ true
    → finds r terms inside (String.◌∷◌ c s) ≡ true
unfolding finds
finds-cons r terms inside c s h = ground arith

finds-HasTerm :
    (r : Matching) (terms : List Term) (before w rest : String) (inside : Bool)
    → ends_inside r inside before ≡ false
    → HasTerm r terms w rest
    → finds r terms inside (append before (append w rest)) ≡ true
unfolding append
finds-HasTerm r terms String.[] w rest inside out h =
    subst (λ b. finds r terms b (append w rest) ≡ true) (sym out)
      (finds-here r terms (append w rest) (any-HasTerm r terms w rest h))
finds-HasTerm r terms (String.◌∷◌ c s) w rest inside out h =
    finds-cons r terms inside c (append s (append w rest))
      (finds-HasTerm r terms s w rest (r.is_word c) out h)

abbrev terms_of : Tier → List Term
terms_of alert = alert_terms
terms_of log = log_terms
terms_of redirect = redirect_terms

abbrev pub severity : Option Tier → ℕ
severity none = 0
severity (some redirect) = 1
severity (some log) = 2
severity (some alert) = 3

severity-found :
    (r : Matching) (tier : Tier) (text : String)
    → finds r (terms_of tier) false text ≡ true
    → severity (some tier) ≤ severity (content_filter_match r text)
unfolding content_filter_match
severity-found r alert text h = ground arith
severity-found r log text h = ground arith
severity-found r redirect text h = ground arith

-- A term of a tier that stands in a text, case folded, as a word of its own or, for a stem, at the
-- start of one, is always found, whatever is around it: as that tier or as a more severe one.
pub content_filter_match-HasTerm :
    (r : Matching) (tier : Tier) (before w rest : String)
    → ends_inside r false before ≡ false
    → HasTerm r (terms_of tier) w rest
    → severity (some tier) ≤ severity (content_filter_match r (append before (append w rest)))
content_filter_match-HasTerm r tier before w rest out h =
    severity-found r tier (append before (append w rest))
      (finds-HasTerm r (terms_of tier) before w rest false out h)
