-- ===== src/Hearing/Tally.antt =====
-- The counts of what a turn of receiveAudioHandle.py does: how often it begins and is settled.
use dotty_stackchan.Prelude.{
  ℕ, ◌+◌, ◌≤◌, String, ◌≡◌, refl, ◌⊎◌, inl, inr, true, ◌||◌, List, [], ◌∷◌, ◌++◌, arith, ◌==◌,
  if◌then◌else◌,
}
use dotty_stackchan.Prelude.{if_cases}
use dotty_stackchan.Hearing.Connection.{
  Connection, Doing, asr_completed, turn_completed, chat_submitted, Did, ◌▹◌, has_raised,
}

-- How often the turn begins, and how often it is settled.
abbrev pub begun : String → List Doing → ℕ
begun id [] = 0
begun id (asr_completed turn_id s ∷ done) =
    let n = begun id done in if turn_id == id then n + 1 else n
begun id (_ ∷ done) = begun id done

abbrev pub settled : String → List Doing → ℕ
settled id [] = 0
settled id (turn_completed turn_id ∷ done) =
    let n = settled id done in if turn_id == id then n + 1 else n
settled id (chat_submitted prompt ∷ done) =
    let n = settled id done in if prompt.turn_id == id then n + 1 else n
settled id (_ ∷ done) = settled id done

pub begun-append :
    (id : String) (xs ys : List Doing) → begun id (xs ++ ys) ≡ begun id xs + begun id ys
begun-append id [] ys = omega arith
begun-append id (x ∷ xs) ys = ground (arith, begun-append id xs ys)

pub settled-append :
    (id : String) (xs ys : List Doing) → settled id (xs ++ ys) ≡ settled id xs + settled id ys
settled-append id [] ys = omega arith
settled-append id (x ∷ xs) ys = ground (arith, settled-append id xs ys)

pub has_raised-append :
    (xs ys : List Doing) → has_raised (xs ++ ys) ≡ (has_raised xs || has_raised ys)
has_raised-append [] ys = refl
has_raised-append (x ∷ xs) ys = ground (arith, has_raised-append xs ys)

-- The turn begins `b` times, and is settled `n` times, or less often where an exception ends it.
pub record Tally (id : String) (b n : ℕ) (done : List Doing) : Type 0 where
  pub begins : begun id done ≡ b
  pub most : settled id done ≤ n
  pub settles : (settled id done ≡ n) ⊎ (has_raised done ≡ true)

Tally-append :
    {id : String} {b n : ℕ} (xs ys : List Doing)
    → Tally id b 0 xs
    → Tally id 0 n ys
    → Tally id b n (xs ++ ys)
Tally-append {id} {b} {n} xs ys h k = record {
  begins = omega (arith, begun-append id xs ys, h.begins, k.begins);
  most = omega (arith, settled-append id xs ys, h.most, k.most);
  settles = elim k.settles [
    | inl all ↦ inl (omega (arith, settled-append id xs ys, h.most, all))
    | inr stopped ↦ inr (ground (arith, has_raised-append xs ys, stopped))
  ];
}

-- What ends before anything is settled.
Tally-stopped :
    {id : String} {b n : ℕ} {done : List Doing}
    → has_raised done ≡ true
    → Tally id b 0 done
    → Tally id b n done
Tally-stopped stopped h = record {
  begins = h.begins;
  most = omega (arith, h.most);
  settles = inr stopped;
}

pub Tally-then :
    {id : String} {b n : ℕ} (d : Did) (f : Connection → Did)
    → Tally id b 0 d.1
    → Tally id 0 n (f d.0).1
    → Tally id b n (d ▹ f).1
Tally-then {id} {b} {n} d f h k =
    if_cases {A = Did} (λ x. Tally id b n x.1) (has_raised d.1) _ _
      (λ stopped. Tally-stopped stopped h) (λ on. Tally-append d.1 (f d.0).1 h k)
