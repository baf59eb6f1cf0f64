-- ===== src/Brackets/Match.antt =====
-- CloseExpression over balanced text, on the same line or on later ones.
use myframe.Common.{
  ℕ, suc, ◌+◌, ◌≡◌, refl, sym, ap, ◌∙◌, true, false, not, ◌||◌, some, List, [], ◌∷◌, ◌++◌, ◌==◌,
  length, drop, get_elem?, arith, All,
}
use mathlib.Core.List.{append-nil}
use myframe.Text.{Text, has_char, codes}
use myframe.Regex.{matches, match_pattern}
use myframe.Brackets.{
  pending, pairs, find_end_from, find_end_of_expression_in_line, Place, close_in_rest,
  shift_pattern, close_from, close_expression,
}
use myframe.Brackets.Balanced.{
  Balanced, find_end_from-expression, find_end_from-last_line, find_end_from-Balanced,
  find_end_from-open, open-ne-less, get_elem?-append, drop-append,
}

matches-shift_pattern :
    (o : ℕ) (r : Text) → (o == b'<') ≡ false → matches shift_pattern (o ∷ r) ≡ false
unfolding shift_pattern match_pattern
matches-shift_pattern o r h = ground arith

-- An opening bracket passes the test at the head of CloseExpression.
is_bracket :
    (o c : ℕ) (r : Text)
    → pairs o c ≡ true
    → (not (has_char (codes "({[<") o) || matches shift_pattern (o ∷ r)) ≡ false
unfolding has_char
is_bracket o c r p = ground (arith, matches-shift_pattern o r)

close_from-bracket :
    (lines : List Text) (linenum : ℕ) (pre : Text) (o c : ℕ) (r : Text)
    → pairs o c ≡ true
    → close_from lines linenum (pre ++ o ∷ r) (length pre) o
      ≡ close_in_rest
          (length lines)
          (pre ++ o ∷ r)
          linenum
          (drop (suc linenum) lines)
          (find_end_from (pre ++ o ∷ r) (length pre) (o ∷ r) [])
unfolding close_from find_end_of_expression_in_line
close_from-bracket lines linenum pre o c r p = rw (drop-append pre (o ∷ r), is_bracket o c r p)

close_expression-bracket :
    (lines : List Text) (linenum : ℕ) (pre : Text) (o c : ℕ) (r : Text)
    → get_elem? lines linenum ≡ some (pre ++ o ∷ r)
    → pairs o c ≡ true
    → close_expression lines linenum (length pre)
      ≡ some (
          close_in_rest
            (length lines)
            (pre ++ o ∷ r)
            linenum
            (drop (suc linenum) lines)
            (find_end_from (pre ++ o ∷ r) (length pre) (o ∷ r) []))
unfolding close_expression
close_expression-bracket lines linenum pre o c r e p =
    rw (e, get_elem?-append pre o r) (ap some (close_from-bracket lines linenum pre o c r p))

-- At an opening bracket with balanced text and the bracket that closes it on the same line,
-- CloseExpression returns that line and the position just behind the closing bracket.
pub close_expression-one_line :
    (lines : List Text) (linenum : ℕ) (pre : Text) (o : ℕ) (w : Text) (c : ℕ) (post : Text)
    → get_elem? lines linenum ≡ some (pre ++ (o ∷ w ++ c ∷ post))
    → pairs o c ≡ true
    → Balanced w
    → close_expression lines linenum (length pre)
      ≡ some (record {
        line = pre ++ (o ∷ w ++ c ∷ post);
        linenum = linenum;
        pos = some (length pre + length w + 2);
      })
close_expression-one_line lines linenum pre o w c post e p b =
    close_expression-bracket lines linenum pre o c (w ++ c ∷ post) e p
    ∙ rw (find_end_from-expression b (pre ++ (o ∷ w ++ c ∷ post)) (length pre) o c post p)
        (unfold close_in_rest in refl)

place_eq :
    (line : Text) (m n p q : ℕ)
    → m ≡ n
    → p ≡ q
    → ◌≡◌ {A = Place}
        (record { line = line; linenum = m; pos = some p })
        (record { line = line; linenum = n; pos = some q })
place_eq line m n p q e f = λ i. record { line = line; linenum = e i; pos = some (f i) }

through_line :
    (m : Text) (i o c : ℕ)
    → pairs o c ≡ true
    → Balanced m
    → find_end_from m i m (o ∷ []) ≡ pending (o ∷ [])
through_line m i o c p b =
    ap (λ r. find_end_from m i r (o ∷ [])) (sym (append-nil m))
    ∙ find_end_from-Balanced b m i o [] [] (open-ne-less o c p)
    ∙ (unfold find_end_from in refl)

-- Over lines that are balanced, the search for the closing bracket goes on to the next line.
close_in_rest-Balanced :
    (num_lines : ℕ) (middle : List Text) (line : Text) (n o c : ℕ) (w post : Text)
    (after : List Text)
    → pairs o c ≡ true
    → All Balanced middle
    → Balanced w
    → close_in_rest num_lines line n (middle ++ (w ++ c ∷ post) ∷ after) (pending (o ∷ []))
      ≡ record { line = w ++ c ∷ post; linenum = n + length middle + 1; pos = some (length w + 1) }
unfolding close_in_rest find_end_of_expression_in_line
close_in_rest-Balanced num_lines [] line n o c w post after p bs b =
    ap (close_in_rest num_lines (w ++ c ∷ post) (suc n) after)
      (find_end_from-last_line b (w ++ c ∷ post) 0 o c post p)
    ∙ place_eq (w ++ c ∷ post) _ _ _ _ (omega arith) (omega arith)
close_in_rest-Balanced num_lines (m ∷ middle) line n o c w post after p bs b =
    ap (close_in_rest num_lines m (suc n) (middle ++ (w ++ c ∷ post) ∷ after))
      (through_line m 0 o c p bs.0)
    ∙ close_in_rest-Balanced num_lines middle m (suc n) o c w post after p bs.1 b
    ∙ place_eq (w ++ c ∷ post) _ _ _ _ (omega arith) (omega arith)

-- From a `(`, `[` or `{`, where the rest of its line, the lines below it and the part of the last line
-- before the closing bracket of its kind have no `<` and no `>`, and each of these texts has its brackets
-- in pairs within itself, CloseExpression returns that last line, its number and the position just behind
-- the closing bracket. Semicolons may stand between.
pub close_expression-lines :
    (lines : List Text) (linenum : ℕ) (pre : Text) (o : ℕ) (first : Text) (middle : List Text)
    (w : Text) (c : ℕ) (post : Text) (after : List Text)
    → get_elem? lines linenum ≡ some (pre ++ o ∷ first)
    → drop (suc linenum) lines ≡ middle ++ (w ++ c ∷ post) ∷ after
    → pairs o c ≡ true
    → Balanced first
    → All Balanced middle
    → Balanced w
    → close_expression lines linenum (length pre)
      ≡ some (record {
        line = w ++ c ∷ post;
        linenum = linenum + length middle + 1;
        pos = some (length w + 1);
      })
close_expression-lines lines linenum pre o first middle w c post after e left p bf bs b =
    close_expression-bracket lines linenum pre o c first e p
    ∙ rw (find_end_from-open bf (pre ++ o ∷ first) (length pre) o c p, left)
        (ap some (
          close_in_rest-Balanced (length lines) middle (pre ++ o ∷ first) linenum o c w post after p
            bs b))
