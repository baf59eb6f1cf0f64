-- ===== src/Nesting/Templates/Ends.antt =====
-- InTemplateArgumentList of cpplint.py: its loop ends.
use myframe.Common.{
  ℕ, zero, suc, ◌+◌, ◌-◌, ◌≤◌, ◌<◌, ◌≡◌, ◌≢◌, refl, Bool, false, Option, none, some, List, [], ◌∷◌,
  leb, inl, inr, length, drop, get_or, arith, Bool-cases,
}
use myframe.Text.{Text}
use myframe.Nesting.Templates.{AfterToken, answer, go_on, template_round, template_from, rounds_of}
use myframe.Nesting.Templates.Onward.{IsOnward, GoesOnward, template_round-GoesOnward}

rounds_of-drop :
    (lines : List Text) (n : ℕ)
    → n < length lines
    → rounds_of (drop n lines) ≡ suc (length (get_or lines n [])) + rounds_of (drop (suc n) lines)
rounds_of-drop [] n h = absurd (omega arith)
rounds_of-drop (line ∷ lines) zero h = refl
rounds_of-drop (line ∷ lines) (suc n) h = rounds_of-drop lines n (omega arith)

rounds_of-pos : (lines : List Text) → 1 ≤ rounds_of lines
rounds_of-pos [] = omega arith
rounds_of-pos (line ∷ lines) = omega arith

rounds_of-le :
    (lines : List Text) (n m : ℕ) → n ≤ m → rounds_of (drop m lines) ≤ rounds_of (drop n lines)
rounds_of-le lines zero zero h = omega arith
rounds_of-le [] zero (suc m) h = omega arith
rounds_of-le (line ∷ lines) zero (suc m) h = omega (arith, rounds_of-le lines zero m (omega arith))
rounds_of-le lines (suc n) zero h = absurd (omega arith)
rounds_of-le [] (suc n) (suc m) h = omega arith
rounds_of-le (line ∷ lines) (suc n) (suc m) h = rounds_of-le lines n m (omega arith)

-- The rounds that are left at a position of a line
abbrev left : List Text → ℕ → ℕ → ℕ
left lines n pos = rounds_of (drop (suc n) lines) + suc (length (get_or lines n []) - pos)

-- A place further on leaves fewer rounds.
left-onward :
    (lines : List Text) (n pos n' pos' : ℕ)
    → n' < length lines
    → IsOnward lines n pos n' pos'
    → left lines n' pos' < left lines n pos
left-onward lines n pos n' pos' h (inl later) =
    omega (arith, rounds_of-drop lines n' h, rounds_of-le lines (suc n) n' (omega arith))
left-onward lines n pos n' pos' h (inr (same, far, fits)) = rw same (omega arith)

Ends : Option Bool → Type 0
Ends o = o ≢ none

template_from-Ends :
    (fuel : ℕ) (lines : List Text) (n pos : ℕ)
    → 1 ≤ fuel
    → (n < length lines → left lines n pos ≤ fuel)
    → Ends (template_from fuel lines n pos)
unfolding template_from Ends
template_from-Ends zero lines n pos some_fuel enough = absurd (omega arith)
template_from-Ends (suc fuel) lines n pos some_fuel enough =
    elim (Bool-cases (leb (length lines) n)) [
      | inl at_end ↦ rw (template_from, at_end) (answered false)
      | inr within ↦
          let inside = leb-false (length lines) n within in
          rw (template_from, within)
            (by_next (template_round lines n (get_or lines n []) pos)
              (template_round-GoesOnward lines n pos)
              (λ n' pos' onward.
                template_from-Ends fuel lines n' pos'
                  (omega (arith, enough inside, rounds_of-pos (drop (suc n) lines)))
                  (λ h. omega (arith, enough inside, left-onward lines n pos n' pos' h onward))))
    ]
  where
    leb-false : (a b : ℕ) → leb a b ≡ false → b < a
    leb-false a b h = ground arith

    answered : (b : Bool) → some b ≢ none
    answered b h = cc

    by_next :
        (next : AfterToken)
        → GoesOnward lines n pos next
        → ((n' pos' : ℕ) → IsOnward lines n pos n' pos' → template_from fuel lines n' pos' ≢ none)
        → (elim next as (λ _. Option Bool) [
          | answer b ↦ some b
          | go_on n' pos' ↦ template_from fuel lines n' pos'
        ])
          ≢ none
    by_next (answer b) onward later = answered b
    by_next (go_on n' pos') onward later = later n' pos' onward

-- The loop of InTemplateArgumentList ends, from any position of any line, with an answer: a round for
-- each character and for each end of a line of the file is enough.
pub template_from-ne-none :
    (lines : List Text) (n pos : ℕ) → template_from (rounds_of lines) lines n pos ≢ none
unfolding Ends
template_from-ne-none lines n pos =
    template_from-Ends (rounds_of lines) lines n pos (rounds_of-pos lines)
      (λ h. omega (arith, rounds_of-drop lines n h, rounds_of-le lines 0 n (omega arith)))
