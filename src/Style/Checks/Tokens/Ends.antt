-- ===== src/Style/Checks/Tokens/Ends.antt =====
-- The loop of CheckCheck: each of its rounds leaves a shorter expression.
use myframe.Common.{
  ℕ, zero, suc, ◌≤◌, ◌<◌, ◌≡◌, ◌≢◌, refl, ap, ◌∙◌, true, Option, none, some, [], ◌∷◌, ◌++◌, arith,
  length, drop, take, if-both,
}
use myframe.Text.{Text, codes, text_eq, is_one_of}
use myframe.Regex.{
  Regex, Cursor, consumed, Found, group_text, lookup_group, match_pattern, capture, star, group,
  line_end, ◌&◌,
}
use myframe.Regex.Classes.{dot, plus, none_of, space, non_space, one_text}
use myframe.Regex.Meaning.{Leads}
use myframe.Regex.Groups.{group_text-lookup, match_pattern-IsFound, Leads-le, length-consumed}
use myframe.Regex.Progress.{is_nonempty, Leads-lt}
use myframe.Brackets.{Scan, found, unclosed, pending, find_end_of_expression_in_line}
use myframe.Style.Checks.Macros.{Comparison}
use myframe.Style.Checks.Tokens.{
  operator_texts, operator_token_pattern, operand_pattern, any_operand_pattern, Token, operand,
  compare_with, at_end_token, returns_token, comparison_of, parenthesis_token, operator_token,
  operand_token, next_token, Sides, sides, no_sides, no_fuel, split_comparison,
}

-- The last group of a pattern, behind one that matches no empty text
abbrev rest_shape : Regex → Regex
rest_shape r = group 1 r & group 2 (star dot) & line_end

rest-group :
    (r : Regex) (c d : Cursor)
    → is_nonempty r ≡ true
    → Leads (rest_shape r) c d
    → (t : Text) × (lookup_group 2 d.groups ≡ some t) × (length t < length c.rest)
unfolding capture
rest-group r c d n (b, (b', lb, eb), (e, (e', le, ee), (ed, _))) = (
  consumed b e',
  ap (λ (x : Cursor). lookup_group 2 x.groups) (ed ∙ ee),
  omega (arith, length-consumed b e', Leads-lt r c b' n lb, ap (λ (x : Cursor). length x.rest) eb),
)

operand-length :
    (s : Text) (m : Found)
    → match_pattern operand_pattern s ≡ some m
    → length (group_text 2 m) < length s
unfolding operand_pattern
operand-length s m h =
    let (d, (a, (ea, _), shape), _, _, groups) = match_pattern-IsFound operand_pattern s m h in
    let (t, two, shorter) = rest-group (plus (none_of (codes "-=!<>()&|"))) a d refl shape in
    rw (group_text-lookup 2 m t (ap (lookup_group 2) groups ∙ two))
      (omega (arith, ap (λ (x : Cursor). length x.rest) ea))

any_operand-length :
    (s : Text) (m : Found)
    → match_pattern any_operand_pattern s ≡ some m
    → length (group_text 2 m) < length s
unfolding any_operand_pattern
any_operand-length s m h =
    let (d, (a, (ea, _), shape), _, _, groups) = match_pattern-IsFound any_operand_pattern s m h in
    let (t, two, shorter) = rest-group (star space & non_space) a d refl shape in
    rw (group_text-lookup 2 m t (ap (lookup_group 2) groups ∙ two))
      (omega (arith, ap (λ (x : Cursor). length x.rest) ea))

operator-length :
    (s : Text) (m : Found)
    → match_pattern operator_token_pattern s ≡ some m
    → length (group_text 2 m) < length s
unfolding operator_token_pattern
operator-length s m h =
    let (d, (a, (ea, _), (b, spaces, shape)), _, _, groups) =
      match_pattern-IsFound operator_token_pattern s m h in
    let (t, two, shorter) = rest-group (one_text operator_texts) b d refl shape in
    rw (group_text-lookup 2 m t (ap (lookup_group 2) groups ∙ two))
      (omega (arith, ap (λ (x : Cursor). length x.rest) ea, Leads-le (star space) a b spaces))

-- What is left behind an operand is shorter than this.
abbrev IsShorter : ℕ → Token → Type 0
IsShorter n (operand t rest) = length rest < n
IsShorter n _ = Unit

length-drop_le : (n : ℕ) (s : Text) → length (drop n s) ≤ length s
length-drop_le zero s = omega arith
length-drop_le (suc n) [] = omega arith
length-drop_le (suc n) (c ∷ s) = omega (arith, length-drop_le n s)

parenthesis_token-IsShorter :
    (n : ℕ) (rest : Text) → length rest < n → IsShorter n (parenthesis_token rest)
unfolding parenthesis_token
parenthesis_token-IsShorter n rest h = by_scan (find_end_of_expression_in_line rest 0 (b'(' ∷ []))
  where
    by_scan :
        (scan : Scan)
        → IsShorter n (elim scan [
          | found end ↦ operand (b'(' ∷ take end rest) (drop end rest)
          | _ ↦ returns_token
        ])
    by_scan (found end) = omega (arith, length-drop_le end rest)
    by_scan unclosed = tt
    by_scan (pending stack) = tt

operator_token-IsShorter :
    (n : ℕ) (token rest : Text) → length rest < n → IsShorter n (operator_token token rest)
unfolding operator_token
operator_token-IsShorter n token rest h =
    if-both (IsShorter n) (text_eq token (codes "(")) _ _ (parenthesis_token-IsShorter n rest h) (
      if-both (IsShorter n) (is_one_of token (codes "&&" ∷ codes "||" ∷ [])) returns_token _ tt
        (by_comparison (comparison_of token)))
  where
    by_comparison :
        (o : Option Comparison)
        → IsShorter n (elim o [ some op ↦ compare_with op rest | none ↦ operand token rest ])
    by_comparison none = h
    by_comparison (some op) = tt

operand_token-IsShorter : (s : Text) → IsShorter (length s) (operand_token s)
unfolding operand_token
operand_token-IsShorter s = by_operand (match_pattern operand_pattern s) refl
  where
    by_any :
        (o : Option Found)
        → match_pattern any_operand_pattern s ≡ o
        → IsShorter
            (length s)
            (elim o [ some m ↦ operand (group_text 1 m) (group_text 2 m) | none ↦ at_end_token ])
    by_any none e = tt
    by_any (some m) e = any_operand-length s m e

    by_operand :
        (o : Option Found)
        → match_pattern operand_pattern s ≡ o
        → IsShorter (length s) (elim o [
          | some m ↦ operand (group_text 1 m) (group_text 2 m)
          | none ↦ elim (match_pattern any_operand_pattern s) [
            | some m ↦ operand (group_text 1 m) (group_text 2 m)
            | none ↦ at_end_token
          ]
        ])
    by_operand none e = by_any (match_pattern any_operand_pattern s) refl
    by_operand (some m) e = operand-length s m e

next_token-IsShorter : (s : Text) → IsShorter (length s) (next_token s)
unfolding next_token
next_token-IsShorter [] = tt
next_token-IsShorter (c ∷ s) = by_operator (match_pattern operator_token_pattern (c ∷ s)) refl
  where
    by_operator :
        (o : Option Found)
        → match_pattern operator_token_pattern (c ∷ s) ≡ o
        → IsShorter (suc (length s)) (elim o [
          | some m ↦ operator_token (group_text 1 m) (group_text 2 m)
          | none ↦ operand_token (c ∷ s)
        ])
    by_operator none e = operand_token-IsShorter (c ∷ s)
    by_operator (some m) e =
        operator_token-IsShorter (suc (length s)) (group_text 1 m) (group_text 2 m)
          (operator-length (c ∷ s) m e)

-- A round for each character of the argument is enough: the loop of CheckCheck ends.
pub split_comparison-ne-no_fuel :
    (fuel : ℕ) (lhs expression : Text)
    → length expression < fuel
    → split_comparison fuel lhs expression ≢ no_fuel
unfolding split_comparison
split_comparison-ne-no_fuel zero lhs expression h = absurd (omega arith)
split_comparison-ne-no_fuel (suc fuel) lhs expression h =
    by_token (λ l e. split_comparison-ne-no_fuel fuel l e) (next_token expression)
      (next_token-IsShorter expression)
  where
    by_token :
        ((l e : Text) → length e < fuel → split_comparison fuel l e ≢ no_fuel)
        → (token : Token) → IsShorter (length expression) token
        → (elim token as (λ _. Sides) [
          | operand text rest ↦ split_comparison fuel (lhs ++ text) rest
          | compare_with op rhs ↦ sides lhs op rhs
          | at_end_token ↦ no_sides
          | returns_token ↦ no_sides
        ])
          ≢ no_fuel
    by_token again (operand text rest) shorter = again (lhs ++ text) rest (omega arith)
    by_token again (compare_with op rhs) shorter = λ e. cc
    by_token again at_end_token shorter = λ e. cc
    by_token again returns_token shorter = λ e. cc
