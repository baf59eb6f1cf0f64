-- ===== src/FileChecks/Newline.antt =====
-- CheckForNewlineAtEOF on the lines of a file as ProcessFile makes them: the text split at its
-- newlines, with a marker line in front and one behind.
use myframe.Common.{
  ℕ, ◌≡◌, ◌≢◌, sym, ◌↔◌, refl, ap, ◌∙◌, Bool, true, false, not, ◌||◌, List, [], ◌∷◌, ◌++◌, ltb,
  ◌==◌, if◌then◌else◌, length, length-append, arith, Bool-cases, inl, inr,
}
use myframe.Text.{Text, split, push_front}
use myframe.FileChecks.{check_for_newline_at_eof, last_but_one, is_empty, report_if}
use myframe.Categories.{Diagnostic}

-- The text is empty or ends with a newline.
abbrev pub ends_line : Text → Bool
ends_line [] = true
ends_line (c ∷ []) = c == 10
ends_line (c ∷ d ∷ s) = ends_line (d ∷ s)

abbrev last_text : List Text → Text
last_text [] = []
last_text (t ∷ []) = t
last_text (t ∷ u ∷ ts) = last_text (u ∷ ts)

split-ne_nil : (s : Text) → split 10 s ≢ []
unfolding split
split-ne_nil [] = λ e. cc
split-ne_nil (c ∷ s) = λ e. go (split 10 s) e
  where
    go : (ts : List Text) → (if c == 10 then [] ∷ ts else push_front c ts) ≡ [] → ⊥
    go [] e = ground arith
    go (t ∷ ts) e = ground arith

head_inj : {u t : Text} {us : List Text} → u ∷ us ≡ t ∷ [] → u ≡ t
head_inj e = cc

-- A text without a newline is one part, which is not empty.
single_part : (d : ℕ) (s t : Text) → split 10 (d ∷ s) ≡ t ∷ [] → is_empty t ≡ false
unfolding split
single_part d s t e = go (split 10 s) (split-ne_nil s) e
  where
    go :
        (ts : List Text)
        → ts ≢ []
        → (if d == 10 then [] ∷ ts else push_front d ts) ≡ t ∷ []
        → is_empty t ≡ false
    go [] ne e = absurd (ne refl)
    go (u ∷ ts) ne e = elim (Bool-cases (d == 10)) [
      | inl b ↦ absurd (ground arith)
      | inr b ↦ rw (← (head_inj (simp b at e))) refl
    ]

last_text-split : (s : Text) → is_empty (last_text (split 10 s)) ≡ ends_line s
unfolding split
last_text-split [] = refl
last_text-split (c ∷ []) = ground arith
last_text-split (c ∷ d ∷ s) =
    go (split 10 (d ∷ s)) (split-ne_nil (d ∷ s)) (single_part d s) (last_text-split (d ∷ s))
  where
    go :
        (ts : List Text)
        → ts ≢ []
        → ((t : Text) → ts ≡ t ∷ [] → is_empty t ≡ false)
        → is_empty (last_text ts) ≡ ends_line (d ∷ s)
        → is_empty (last_text (if c == 10 then [] ∷ ts else push_front c ts)) ≡ ends_line (d ∷ s)
    go [] ne single h = absurd (ne refl)
    go (t ∷ []) ne single h = elim (Bool-cases (c == 10)) [
      | inl b ↦ rw b h
      | inr b ↦ rw b (sym (single t refl) ∙ h)
    ]
    go (t ∷ u ∷ ts) ne single h = elim (Bool-cases (c == 10)) [ inl b ↦ rw b h | inr b ↦ rw b h ]

last_but_one-append : (ts : List Text) (m : Text) → last_but_one (ts ++ m ∷ []) ≡ last_text ts
last_but_one-append [] m = refl
last_but_one-append (t ∷ []) m = refl
last_but_one-append (t ∷ u ∷ []) m = refl
last_but_one-append (t ∷ u ∷ v ∷ ts) m = last_but_one-append (u ∷ v ∷ ts) m

report_if-nil : (b : Bool) (d : Diagnostic) → (report_if b d ≡ []) ↔ (b ≡ false)
report_if-nil true d = (λ e. cc, λ e. cc)
report_if-nil false d = (λ e. refl, λ e. refl)

condition_lem :
    (ts : List Text) (first last : Text)
    → ts ≢ []
    → (ltb (length (first ∷ (ts ++ last ∷ []))) 3
        || not (is_empty (last_but_one (first ∷ (ts ++ last ∷ [])))))
      ≡ not (is_empty (last_text ts))
condition_lem [] first last ne = absurd (ne refl)
condition_lem (t ∷ ts) first last ne =
    rw (last_but_one-append (first ∷ t ∷ ts) last)
      (ground (arith, length-append (t ∷ ts) (last ∷ [])))

-- On a file's text, split at its newlines, between two marker lines, CheckForNewlineAtEOF reports
-- nothing exactly when the text is empty or ends with a newline.
pub check_for_newline_at_eof_iff :
    (text first last : Text)
    → (check_for_newline_at_eof (first ∷ (split 10 text ++ last ∷ [])) ≡ [])
      ↔ (ends_line text ≡ true)
unfolding check_for_newline_at_eof
check_for_newline_at_eof_iff text first last =
    let quiet = report_if-nil _ _ in
    let condition = condition_lem (split 10 text) first last (split-ne_nil text) in
    let ends = last_text-split text in
    (
      λ e. not_false (sym (ap not ends) ∙ sym condition ∙ quiet.0 e),
      λ e. quiet.1 (condition ∙ ap not (ends ∙ e)),
    )
  where
    not_false : {b : Bool} → not b ≡ false → b ≡ true
    not_false {b} e = ground arith
