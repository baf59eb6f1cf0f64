-- ===== src/Nesting/Templates/Onward.antt =====
-- InTemplateArgumentList of cpplint.py: each round of its loop goes on further behind.
use myframe.Common.{
  ℕ, zero, suc, ◌+◌, ◌-◌, ◌≤◌, ◌<◌, ◌≡◌, ◌≢◌, ◌⊎◌, inl, inr, refl, sym, ap, ◌∙◌, Bool, true, false,
  not, ◌||◌, Option, none, some, List, [], ◌∷◌, ◌++◌, ◌==◌, leb, if◌then◌else◌, length,
  length-append, drop, get_or, get_elem?, arith, if-both, Bool-cases, Option-cases, >>=-eq-some,
  some_inj,
}
use mathlib.Core.Path.{subst}
use mathlib.Core.List.{append_assoc}
use myframe.Text.{Text, codes, has_char}
use myframe.Regex.{Cursor, start, capture, Found, group_text, match_pattern, matches}
use myframe.Regex.Groups.{match_pattern-IsFound}
use myframe.Regex.Stars.{star_chr_sound, consumed-append}
use myframe.Brackets.{
  Scan, found, unclosed, pending, find_end_of_expression_in_line, Place, close_in_rest,
  shift_pattern, close_from, close_expression,
}
use myframe.Brackets.Bounds.{find_end_from-EndsIn, find_end-EndsIn}
use myframe.Nesting.Templates.{
  template_token_pattern, AfterToken, answer, go_on, behind_template, at_token, template_round,
}

some-ne-none {ℓ} : {A : Type ℓ} (a : A) → none ≢ some a
some-ne-none a h = cc

lt-get_elem? : (xs : Text) (n c : ℕ) → get_elem? xs n ≡ some c → n < length xs
lt-get_elem? [] n c h = absurd (some-ne-none c h)
lt-get_elem? (x ∷ xs) zero c h = omega arith
lt-get_elem? (x ∷ xs) (suc n) c h = omega (arith, lt-get_elem? xs n c h)

get_or-get_elem? :
    (xs : List Text) (n : ℕ) (x : Text) → get_elem? xs n ≡ some x → get_or xs n [] ≡ x
get_or-get_elem? [] n x h = absurd (some-ne-none x h)
get_or-get_elem? (y ∷ xs) zero x h = some_inj y x h
get_or-get_elem? (y ∷ xs) (suc n) x h = get_or-get_elem? xs n x h

-- The search for the end goes on behind line `n`, or has ended there.
close_in_rest_onward :
    (num n p : ℕ) (line : Text) (lines : List Text) (scan : Scan)
    → (close_in_rest num line n lines scan).pos ≡ some p
    → (n < (close_in_rest num line n lines scan).linenum)
      ⊎ (((close_in_rest num line n lines scan).linenum ≡ n) × (scan ≡ found p))
unfolding close_in_rest
close_in_rest_onward num n p line lines (found q) h = inr (refl, ap found (some_inj q p h))
close_in_rest_onward num n p line lines unclosed h = absurd (some-ne-none p h)
close_in_rest_onward num n p line lines (pending []) h = absurd (some-ne-none p h)
close_in_rest_onward num n p line [] (pending (c ∷ s)) h = absurd (some-ne-none p h)
close_in_rest_onward num n p line (next ∷ lines) (pending (c ∷ s)) h =
    elim (close_in_rest_onward num (suc n) p next lines
      (find_end_of_expression_in_line next 0 (c ∷ s)) h) [
        | inl later ↦ inl (omega arith)
        | inr (same, _) ↦ inl (omega arith)
      ]

-- A later line, or a later position of the same line, which has that many characters
abbrev pub IsOnward : List Text → ℕ → ℕ → ℕ → ℕ → Type 0
IsOnward lines n pos n' pos' =
    (n < n') ⊎ ((n' ≡ n) × (pos < pos') × (pos' ≤ length (get_or lines n [])))

close_from-IsOnward :
    (lines : List Text) (n pos c p : ℕ) (line : Text)
    → get_or lines n [] ≡ line
    → (close_from lines n line pos c).pos ≡ some p
    → IsOnward lines n pos (close_from lines n line pos c).linenum p
unfolding close_from find_end_of_expression_in_line
close_from-IsOnward lines n pos c p line here h =
    elim (Bool-cases (not (has_char (codes "({[<") c) || matches shift_pattern (drop pos line))) [
      | inl other ↦ absurd (some-ne-none p (rw (← h, close_from, other) refl))
      | inr bracket ↦
          let way : close_from lines n line pos c
              ≡ close_in_rest (length lines) line n (drop (suc n) lines)
                  (find_end_of_expression_in_line line pos []) =
            rw (close_from, bracket) refl in
          let h' = ap (λ (r : Place). r.pos) (sym way) ∙ h in
          let at = ap (λ (r : Place). r.linenum) way in
          elim (close_in_rest_onward (length lines) n p line (drop (suc n) lines)
            (find_end_of_expression_in_line line pos []) h') [
              | inl later ↦ inl (omega arith)
              | inr (same, ends) ↦
                  let (k, _, far, _, _) = find_end_from-EndsIn line pos (drop pos line) [] p ends in
                  let (j, d, at0, there, _) = find_end-EndsIn line pos [] p ends in
                  inr (at ∙ same, omega arith, rw here (omega (arith, lt-get_elem? line j d there)))
            ]
    ]

close_expression-IsOnward :
    (lines : List Text) (n pos p : ℕ) (r : Place)
    → close_expression lines n pos ≡ some r
    → r.pos ≡ some p
    → IsOnward lines n pos r.linenum p
unfolding close_expression
close_expression-IsOnward lines n pos p r e h =
    let (line, here, e') = >>=-eq-some (get_elem? lines n) _ e in
    let (c, there, e'') = >>=-eq-some (get_elem? line pos) _ e' in
    let same = some_inj _ _ e'' in
    subst (λ (x : Place). IsOnward lines n pos x.linenum p) same
      (close_from-IsOnward lines n pos c p line (get_or-get_elem? lines n line here)
        (ap (λ (x : Place). x.pos) same ∙ h))

-- A match of the pattern has a character at least, and no more than the text.
match-length :
    (s : Text) (m : Found)
    → match_pattern template_token_pattern s ≡ some m
    → (1 ≤ length m.text) × (length m.text ≤ length s)
unfolding template_token_pattern capture
match-length s m e =
    let (d, (a, (ea, _), (b, rb, (e', (c, t, eb, _, ee'), ed))), text, _, _) =
      match_pattern-IsFound template_token_pattern s m e in
    let (pre, from_a, _) = star_chr_sound _ a b rb in
    let d_rest : d.rest ≡ t = ap (λ (x : Cursor). x.rest) ed ∙ ap (λ (x : Cursor). x.rest) ee' in
    let whole : s ≡ (pre ++ c ∷ []) ++ d.rest =
      ap (λ (x : Cursor). x.rest) (sym ea)
      ∙ from_a
      ∙ ap (λ r. pre ++ r) (eb ∙ ap (λ r. c ∷ r) (sym d_rest))
      ∙ sym (append_assoc pre (c ∷ []) d.rest) in
    let passed : m.text ≡ pre ++ c ∷ [] =
      text ∙ consumed-append (start s) d (pre ++ c ∷ []) whole in
    (
      rw passed (omega (arith, length-append pre (c ∷ []))),
      omega (arith, ap length passed, ap length whole, length-append (pre ++ c ∷ []) d.rest),
    )

length-drop : (n : ℕ) (s : Text) → length (drop n s) ≡ length s - n
length-drop zero s = omega arith
length-drop (suc n) [] = omega arith
length-drop (suc n) (c ∷ s) = omega (arith, length-drop n s)

-- What a round leads to is further on, if it leads on.
abbrev pub GoesOnward : List Text → ℕ → ℕ → AfterToken → Type 0
GoesOnward lines n pos (answer b) = Unit
GoesOnward lines n pos (go_on n' pos') = IsOnward lines n pos n' pos'

behind_template-GoesOnward :
    (lines : List Text) (n pos : ℕ) (o : Option Place)
    → ((r : Place) (p : ℕ) → o ≡ some r → r.pos ≡ some p → IsOnward lines n pos r.linenum p)
    → GoesOnward lines n pos (behind_template o)
unfolding behind_template
behind_template-GoesOnward lines n pos none h = tt
behind_template-GoesOnward lines n pos (some r) h = elim (Option-cases r.pos) [
  | inl e ↦ rw (behind_template, e) tt
  | inr (p, e) ↦ rw (behind_template, e) (h r p refl e)
]

at_token-GoesOnward :
    (lines : List Text) (n pos q token : ℕ)
    → pos < q
    → q ≤ length (get_or lines n [])
    → GoesOnward lines n pos (at_token lines n (length (get_or lines n [])) q token)
unfolding at_token
at_token-GoesOnward lines n pos q token lt le =
    if-both (GoesOnward lines n pos) (has_char (codes "{};") token) (answer false) _ tt (
      if-both (GoesOnward lines n pos) (has_char (codes ">=[].") token) (answer true) _ tt (
        if-both (GoesOnward lines n pos) (not (token == b'<')) _ _
          (within (leb (length (get_or lines n [])) (q + 1)) refl)
          (behind_template-GoesOnward lines n pos (close_expression lines n (q - 1))
            (λ r p e h. further r.linenum p (close_expression-IsOnward lines n (q - 1) p r e h)))))
  where
    leb-false : (a b : ℕ) → leb a b ≡ false → b < a
    leb-false a b h = ground arith

    within :
        (b : Bool)
        → leb (length (get_or lines n [])) (q + 1) ≡ b
        → GoesOnward lines n pos (if b then go_on (suc n) 0 else go_on n (q + 1))
    within true e = inl (omega arith)
    within false e = inr (refl, omega arith, omega (arith, leb-false _ _ e))

    further : (n' p : ℕ) → IsOnward lines n (q - 1) n' p → IsOnward lines n pos n' p
    further n' p (inl later) = inl later
    further n' p (inr (same, far, fits)) = inr (same, omega arith, fits)

pub template_round-GoesOnward :
    (lines : List Text) (n pos : ℕ)
    → GoesOnward lines n pos (template_round lines n (get_or lines n []) pos)
unfolding template_round
template_round-GoesOnward lines n pos =
    let line = get_or lines n [] in
    elim (Option-cases (match_pattern template_token_pattern (drop pos line))) [
      | inl e ↦ rw (template_round, e) (inl (omega arith))
      | inr (m, e) ↦
          let (some_text, fits) = match-length (drop pos line) m e in
          rw (template_round, e)
            (at_token-GoesOnward lines n pos (pos + length m.text) (get_or (group_text 1 m) 0 0)
              (omega arith) (omega (arith, length-drop pos line)))
    ]
