-- ===== src/Style/Operators/Hidden.antt =====
-- The loop of CheckOperatorSpacing over the names of operators: each round leaves fewer characters
-- that belong to no word.
use myframe.Common.{
  ℕ, zero, suc, ◌+◌, ◌≤◌, ◌<◌, ◌≡◌, refl, sym, ap, ◌∙◌, false, Option, none, some, List, [], ◌∷◌,
  ◌++◌, arith, length, if◌then◌else◌, get_or, ◌>>=◌, Option-cases, inl, inr,
}
use mathlib.Core.Path.{subst}
use myframe.Text.{Text, codes}
use myframe.Regex.{
  Cursor, consumed, Found, group_text, lookup_group, match_pattern, capture, is_word, head_is_word,
  star, ◌&◌,
}
use myframe.Regex.Classes.{non_space, char, dot, whole_word, plus, space}
use myframe.Regex.Meaning.{Leads}
use myframe.Categories.{Diagnostic}
use myframe.Regex.Groups.{group_text-lookup, match_pattern-IsFound, Leads-groups}
use myframe.Regex.Stars.{star_chr_sound, consumed-append}
use myframe.Regex.Progress.{Leads-consumed, literal-head_is_word, at_boundary-behind_word}
use myframe.Style.Operators.{
  operator_name_pattern, underscores, hide_operators, check_operator_spacing,
}

-- The characters that belong to no word
abbrev others : Text → ℕ
others [] = 0
others (c ∷ s) = if is_word c then others s else suc (others s)

others-append : (s t : Text) → others (s ++ t) ≡ others s + others t
others-append [] t = omega arith
others-append (c ∷ s) t = ground (arith, others-append s t)

others-underscores : (s : Text) → others (underscores s) ≡ 0
others-underscores [] = refl
others-underscores (c ∷ s) = others-underscores s

others-le : (s : Text) → others s ≤ length s
others-le [] = omega arith
others-le (c ∷ s) = ground (arith, others-le s)

-- The name of an operator begins with a character that belongs to no word.
name-others :
    (b c : Cursor)
    → head_is_word b.rest ≡ false
    → Leads (plus non_space) b c
    → 0 < others (consumed b c)
name-others b c h (e, (x, s, eb, px, ed), rounds) =
    let (pre, from_e, _) = star_chr_sound _ e c rounds in
    let rest : s ≡ pre ++ c.rest = ap (λ (y : Cursor). y.rest) (sym ed) ∙ from_e in
    let name : consumed b c ≡ x ∷ pre = consumed-append b c (x ∷ pre) (eb ∙ ap (λ t. x ∷ t) rest) in
    let other : is_word x ≡ false = ap head_is_word (sym eb) ∙ h in
    rw (name, others) (rw other (omega arith))

-- What is behind `operator`, at a boundary, begins with no character of a word.
operator-behind :
    (a b : Cursor) → Leads (whole_word (codes "operator")) a b → head_is_word b.rest ≡ false
operator-behind a b (c, _, (d, word, (same, boundary))) =
    subst (λ (x : Cursor). head_is_word x.rest ≡ false) (sym same)
      (at_boundary-behind_word d
        (literal-head_is_word b'o' (codes "perator") c d
          (refl, (refl, (refl, (refl, (refl, (refl, (refl, (refl, tt)))))))) word)
        boundary)

-- The three groups of a match
record Parts (line : Text) (m : Found) : Type 0 where
  rest : Text
  whole : line ≡ group_text 1 m ++ (group_text 2 m ++ (group_text 3 m ++ rest))
  name : 0 < others (group_text 2 m)

found-Parts :
    (line : Text) (m : Found) → match_pattern operator_name_pattern line ≡ some m → Parts line m
unfolding operator_name_pattern capture
found-Parts line m h =
    let (
      d,
      (a, (ea, _), (b, (b', lb, eb), (c, (c', lc, ec), (e, (e', le, ee), (ed, _))))),
      _,
      _,
      groups,
    ) =
      match_pattern-IsFound operator_name_pattern line m h in
    let three : m.groups ≡ (3, consumed c e') ∷ e'.groups = groups ∙ rw (ed, ee) refl in
    let two : e'.groups ≡ (2, consumed b c') ∷ c'.groups =
      Leads-groups (star space & char b'(' & star dot) c e' refl le ∙ rw ec refl in
    let one : c'.groups ≡ (1, consumed a b') ∷ b'.groups =
      Leads-groups (plus non_space) b c' refl lc ∙ rw eb refl in
    let g1 =
      group_text-lookup 1 m (consumed a b')
        (ap (lookup_group 1) three ∙ ap (lookup_group 1) two ∙ ap (lookup_group 1) one) in
    let g2 =
      group_text-lookup 2 m (consumed b c') (ap (lookup_group 2) three ∙ ap (lookup_group 2) two) in
    let g3 = group_text-lookup 3 m (consumed c e') (ap (lookup_group 3) three) in
    let at_b : b.rest ≡ b'.rest = ap (λ (x : Cursor). x.rest) eb in
    let at_c : c.rest ≡ c'.rest = ap (λ (x : Cursor). x.rest) ec in
    let (x, y, operator) = lb in
    record {
      rest = e'.rest;
      whole =
          ap (λ (x : Cursor). x.rest) (sym ea)
          ∙ Leads-consumed (star dot & whole_word (codes "operator")) a b' lb
          ∙ ap (λ t. consumed a b' ++ t)
              (sym at_b
                ∙ Leads-consumed (plus non_space) b c' lc
                ∙ ap (λ t. consumed b c' ++ t)
                    (sym at_c ∙ Leads-consumed (star space & char b'(' & star dot) c e' le))
          ∙ rw (g1, g2, g3) refl;
      name = rw g2 (name-others b c' (ap head_is_word at_b ∙ operator-behind x b' operator) lc);
    }

-- A round leaves fewer of them.
round-others :
    (line : Text) (m : Found)
    → match_pattern operator_name_pattern line ≡ some m
    → others (group_text 1 m ++ (underscores (group_text 2 m) ++ group_text 3 m)) < others line
round-others line m h =
    let parts = found-Parts line m h in
    let g1 = group_text 1 m in
    let g2 = group_text 2 m in
    let g3 = group_text 3 m in
    omega (
      arith,
      parts.name,
      ap others parts.whole,
      others-append g1 (g2 ++ (g3 ++ parts.rest)),
      others-append g2 (g3 ++ parts.rest),
      others-append g3 parts.rest,
      others-append g1 (underscores g2 ++ g3),
      others-append (underscores g2) g3,
      others-underscores g2,
    )

hide_operators-some :
    (fuel : ℕ) (line : Text)
    → others line < fuel
    → (hidden : Text) × (hide_operators fuel line ≡ some hidden)
      × (match_pattern operator_name_pattern hidden ≡ none)
unfolding hide_operators
hide_operators-some zero line h = absurd (omega arith)
hide_operators-some (suc fuel) line h =
    elim (Option-cases (match_pattern operator_name_pattern line)) [
      | inl done ↦ (line, rw (done, hide_operators) refl, done)
      | inr (m, e) ↦
          let (hidden, result, settled) =
            hide_operators-some fuel
              (group_text 1 m ++ (underscores (group_text 2 m) ++ group_text 3 m))
              (omega (arith, round-others line m e)) in
          (hidden, rw (e, hide_operators) result, settled)
    ]

-- The loop that replaces the names of operators ends, at a line where there is none to be replaced.
pub hide_operators_lem :
    (line : Text)
    → (hidden : Text) × (hide_operators (suc (length line)) line ≡ some hidden)
      × (match_pattern operator_name_pattern hidden ≡ none)
hide_operators_lem line =
    hide_operators-some (suc (length line)) line (omega (arith, others-le line))

-- A chain whose last step cannot fail has a result.
pub bind-some {ℓ κ} :
    {A : Type ℓ} {B : Type κ} (m : Option A) (f : A → B) {a : A}
    → m ≡ some a
    → (b : B) × ((m >>= λ x. some (f x)) ≡ some b)
bind-some m f {a} e = (f a, rw e refl)

pub check_operator_spacing-some :
    (elided : List Text) (linenum : ℕ)
    → (ds : List Diagnostic) × (check_operator_spacing elided linenum ≡ some ds)
unfolding check_operator_spacing
check_operator_spacing-some elided linenum =
    let (hidden, e, _) = hide_operators_lem (get_or elided linenum []) in bind-some _ _ e
