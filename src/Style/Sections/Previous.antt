-- ===== src/Style/Sections/Previous.antt =====
-- What GetPreviousNonBlankLine finds.
use mathlib.Core.List.{reverse, reverse-append}
use myframe.Common.{
  ℕ, zero, suc, ◌-◌, ◌≤◌, ◌<◌, ◌≡◌, refl, sym, ap, ◌∙◌, inl, inr, true, false, Option, none, some,
  List, [], ◌∷◌, ◌++◌, arith, length, take, get_or, Bool-cases, ltb, ltb→lt, if◌then◌else◌,
}
use mathlib.Core.Path.{subst}
use myframe.Text.{Text}
use myframe.FileChecks.{is_blank_line}
use myframe.Style.Sections.{previous_non_blank, get_previous_non_blank_line}

-- The lines from number `low` on, up to the one before `high`, are blank.
abbrev pub AreBlank : List Text → ℕ → ℕ → Type 0
AreBlank lines low high = (k : ℕ) → low ≤ k → k < high → is_blank_line (get_or lines k []) ≡ true

-- The last line before line `n` that is not blank, if there is one
abbrev pub Previous : List Text → ℕ → Option (Text × ℕ) → Type 0
Previous lines n none = AreBlank lines 0 n
Previous lines n (some (line, i)) =
    (i < n) × (get_or lines i [] ≡ line) × (is_blank_line line ≡ false) × AreBlank lines (suc i) n

take-suc :
    (lines : List Text) (n : ℕ)
    → n < length lines
    → take (suc n) lines ≡ take n lines ++ get_or lines n [] ∷ []
take-suc [] n h = absurd (omega arith)
take-suc (l ∷ lines) zero h = refl
take-suc (l ∷ lines) (suc n) h = ap (λ ls. l ∷ ls) (take-suc lines n (omega arith))

reverse-take :
    (lines : List Text) (n : ℕ)
    → n < length lines
    → reverse (take (suc n) lines) ≡ get_or lines n [] ∷ reverse (take n lines)
reverse-take lines n h =
    ap reverse (take-suc lines n h) ∙ reverse-append (take n lines) (get_or lines n [] ∷ [])

blank-suc :
    (lines : List Text) (low n : ℕ)
    → is_blank_line (get_or lines n []) ≡ true
    → AreBlank lines low n
    → AreBlank lines low (suc n)
blank-suc lines low n h all k low_le lt = elim (Bool-cases (ltb k n)) [
  | inl before ↦ all k low_le (ltb→lt k n before)
  | inr last ↦
      let same : k ≡ n = ground arith in
      subst (λ j. is_blank_line (get_or lines j []) ≡ true) (sym same) h
]

Previous-suc :
    (lines : List Text) (n : ℕ) (o : Option (Text × ℕ))
    → is_blank_line (get_or lines n []) ≡ true
    → Previous lines n o
    → Previous lines (suc n) o
Previous-suc lines n none h p = blank-suc lines 0 n h p
Previous-suc lines n (some (line, i)) h (lt, at, text, all) =
    (omega arith, at, text, blank-suc lines (suc i) n h all)

-- GetPreviousNonBlankLine finds the last line before the given one that is not blank, where that one
-- is a line or the end of the file; where it finds none, all lines before are blank.
pub get_previous_non_blank_line-Previous :
    (lines : List Text) (n : ℕ)
    → n ≤ length lines
    → Previous lines n (get_previous_non_blank_line lines n)
unfolding get_previous_non_blank_line previous_non_blank
get_previous_non_blank_line-Previous lines zero h = λ k low lt. absurd (omega arith)
get_previous_non_blank_line-Previous lines (suc n) h =
    let before = get_previous_non_blank_line-Previous lines n (omega arith) in
    let line = get_or lines n [] in
    let step : get_previous_non_blank_line lines (suc n)
        ≡ (if is_blank_line line then get_previous_non_blank_line lines n else some (line, n)) =
      ap (λ i. previous_non_blank i (reverse (take (suc n) lines)))
        (let e : suc n - 1 ≡ n = omega arith in e)
      ∙ ap (previous_non_blank n) (reverse-take lines n (omega arith)) in
    subst (Previous lines (suc n)) (sym step) (elim (Bool-cases (is_blank_line line)) [
      | inl blank ↦
          rw blank (Previous-suc lines n (get_previous_non_blank_line lines n) blank before)
      | inr other ↦ rw other (omega arith, refl, other, λ k low lt. absurd (omega arith))
    ])
