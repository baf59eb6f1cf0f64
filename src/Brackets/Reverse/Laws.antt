-- ===== src/Brackets/Reverse/Laws.antt =====
-- ReverseCloseExpression over balanced text, and against CloseExpression.
use myframe.Common.{
  ℕ, suc, ◌+◌, ◌-◌, ◌≡◌, refl, sym, ap, ◌∙◌, true, false, not, some, List, [], ◌∷◌, ◌++◌, length,
  length-append, take, get_elem?, arith, ◌==◌,
}
use mathlib.Core.List.{reverse, reverse-append, append_assoc}
use myframe.Text.{Text, has_char, codes}
use myframe.Brackets.{Scan, found, unclosed, drop_top, pairs, close_expression}
use myframe.Brackets.Balanced.{Balanced, nil, plain, wrap, is_plain, get_elem?-append}
use myframe.Brackets.Match.{close_expression-one_line}
use myframe.Brackets.Reverse.{
  BackMove, onward, skip, start_here, give_up, popped, start_move, find_start_from,
  find_start_of_expression_in_line, open_in_rest, reverse_close_expression,
}

start_move-plain :
    (line : Text) (i c d : ℕ) (s : List ℕ)
    → is_plain c ≡ true
    → (d == b'>') ≡ false
    → start_move line i c (d ∷ s) ≡ onward (d ∷ s)
unfolding start_move drop_top
start_move-plain line i c d s p q = ground arith

close-ne-greater : (o c : ℕ) → pairs o c ≡ true → (c == b'>') ≡ false
close-ne-greater o c p = ground arith

start_move-close :
    (line : Text) (i o c : ℕ) (s : List ℕ)
    → pairs o c ≡ true
    → start_move line i c s ≡ onward (c ∷ s)
unfolding start_move
start_move-close line i o c s p = ground arith

start_move-open :
    (line : Text) (i o c : ℕ) (s : List ℕ)
    → pairs o c ≡ true
    → start_move line i o (c ∷ s) ≡ popped start_here s
unfolding start_move drop_top
start_move-open line i o c s p = ground arith

after_move : Text → Text → BackMove → Scan
after_move line before (onward s) = find_start_from line false before s
after_move line before (skip s) = find_start_from line true before s
after_move line before start_here = found (length before)
after_move line before give_up = unclosed

find_start-step :
    (line : Text) (c : ℕ) (before : Text) (s : List ℕ) (m : BackMove)
    → start_move line (length before) c s ≡ m
    → find_start_from line false (c ∷ before) s ≡ after_move line before m
unfolding find_start_from after_move
find_start-step line c before s m e =
    ap
      (λ m. elim m as (λ _. Scan) [
        | onward s ↦ find_start_from line false before s
        | skip s ↦ find_start_from line true before s
        | start_here ↦ found (length before)
        | give_up ↦ unclosed
      ])
      e
    ∙ by_move m
  where
    by_move :
        (m : BackMove)
        → elim m as (λ _. Scan) [
          | onward s ↦ find_start_from line false before s
          | skip s ↦ find_start_from line true before s
          | start_here ↦ found (length before)
          | give_up ↦ unclosed
        ]
          ≡ after_move line before m
    by_move (onward s) = refl
    by_move (skip s) = refl
    by_move start_here = refl
    by_move give_up = refl

reverse-cons : (c : ℕ) (w rest : Text) → reverse (c ∷ w) ++ rest ≡ reverse w ++ c ∷ rest
reverse-cons c w rest =
    ap (λ r. r ++ rest) (reverse-append (c ∷ []) w) ∙ append_assoc (reverse w) (c ∷ []) rest

reverse-wrap :
    (o c : ℕ) (w v rest : Text)
    → reverse (o ∷ w ++ c ∷ v) ++ rest ≡ reverse v ++ (c ∷ reverse w ++ (o ∷ rest))
reverse-wrap o c w v rest =
    reverse-cons o (w ++ c ∷ v) rest
    ∙ ap (λ r. r ++ o ∷ rest) (reverse-append w (c ∷ v))
    ∙ append_assoc (reverse (c ∷ v)) (reverse w) (o ∷ rest)
    ∙ reverse-cons c v (reverse w ++ o ∷ rest)

-- To the left over balanced text, inside at least one bracket, the scan comes out with its stack.
find_start_from-Balanced :
    {w : Text}
    → Balanced w
    → (line : Text) (d : ℕ) (s : List ℕ) (rest : Text) → (d == b'>') ≡ false
    → find_start_from line false (reverse w ++ rest) (d ∷ s)
      ≡ find_start_from line false rest (d ∷ s)
unfolding after_move
find_start_from-Balanced nil line d s rest q = refl
find_start_from-Balanced (plain c w p b) line d s rest q =
    ap (λ r. find_start_from line false r (d ∷ s)) (reverse-cons c w rest)
    ∙ find_start_from-Balanced b line d s (c ∷ rest) q
    ∙ find_start-step line c rest (d ∷ s) _ (start_move-plain line (length rest) c d s p q)
find_start_from-Balanced (wrap o c w v p bw bv t e) line d s rest q =
    ap (λ t. find_start_from line false (reverse t ++ rest) (d ∷ s)) e
    ∙ ap (λ r. find_start_from line false r (d ∷ s)) (reverse-wrap o c w v rest)
    ∙ find_start_from-Balanced bv line d s (c ∷ reverse w ++ (o ∷ rest)) q
    ∙ find_start-step line c (reverse w ++ (o ∷ rest)) (d ∷ s) _
        (start_move-close line (length (reverse w ++ (o ∷ rest))) o c (d ∷ s) p)
    ∙ find_start_from-Balanced bw line c (d ∷ s) (o ∷ rest) (close-ne-greater o c p)
    ∙ find_start-step line o rest (c ∷ d ∷ s) _ (start_move-open line (length rest) o c (d ∷ s) p)

length-reverse : (w : Text) → length (reverse w) ≡ length w
length-reverse [] = refl
length-reverse (c ∷ w) = omega (
  arith,
  ap (length {A = ℕ}) (reverse-append (c ∷ []) w),
  length-append (reverse w) (c ∷ []),
  length-reverse w,
)

-- From the closing bracket on, to the left, the scan finds the bracket that opened.
find_start-expression :
    {w : Text}
    → Balanced w
    → (line pre : Text) (o c : ℕ) → pairs o c ≡ true
    → find_start_from line false (reverse (pre ++ (o ∷ w ++ c ∷ []))) [] ≡ found (length pre)
unfolding after_move
find_start-expression {w} b line pre o c p =
    ap (λ r. find_start_from line false r [])
      (reverse-append pre (o ∷ w ++ c ∷ []) ∙ reverse-wrap o c w [] (reverse pre))
    ∙ find_start-step line c (reverse w ++ (o ∷ reverse pre)) [] _
        (start_move-close line (length (reverse w ++ (o ∷ reverse pre))) o c [] p)
    ∙ find_start_from-Balanced b line c [] (o ∷ reverse pre) (close-ne-greater o c p)
    ∙ find_start-step line o (reverse pre) (c ∷ []) _
        (start_move-open line (length (reverse pre)) o c [] p)
    ∙ ap found (length-reverse pre)

take-append :
    (pre : Text) (c : ℕ) (post : Text) → take (suc (length pre)) (pre ++ c ∷ post) ≡ pre ++ c ∷ []
take-append [] c post = refl
take-append (x ∷ pre) c post = ap (λ r. x ∷ r) (take-append pre c post)

is_bracket : (o c : ℕ) → pairs o c ≡ true → not (has_char (codes ")}]>") c) ≡ false
unfolding has_char
is_bracket o c p = ground arith

-- From a closing bracket that stands behind a text, with the bracket that opens it.
reverse_close-at :
    (lines : List Text) (linenum : ℕ) (pre : Text) (o : ℕ) (w : Text) (c : ℕ) (post head : Text)
    → head ≡ pre ++ (o ∷ w)
    → get_elem? lines linenum ≡ some (head ++ c ∷ post)
    → pairs o c ≡ true
    → Balanced w
    → reverse_close_expression lines linenum (length head)
      ≡ some (record { line = head ++ c ∷ post; linenum = linenum; pos = some (length pre) })
unfolding reverse_close_expression find_start_of_expression_in_line open_in_rest
reverse_close-at lines linenum pre o w c post head h e p b =
    rw (e, get_elem?-append head c post, is_bracket o c p, take-append head c post)
      (ap
        (λ scan. some (open_in_rest (head ++ c ∷ post) linenum (reverse (take linenum lines)) scan))
        (ap (λ r. find_start_from (head ++ c ∷ post) false (reverse r) [])
            (ap (λ t. t ++ c ∷ []) h ∙ append_assoc pre (o ∷ w) (c ∷ []))
          ∙ find_start-expression b (head ++ c ∷ post) pre o c p))

-- At a closing bracket, with balanced text and the bracket that opens it before it on the line,
-- ReverseCloseExpression returns the line and the position of the opening bracket.
pub reverse_close_expression-one_line :
    (lines : List Text) (linenum : ℕ) (pre : Text) (o : ℕ) (w : Text) (c : ℕ) (post : Text)
    → get_elem? lines linenum ≡ some (pre ++ (o ∷ w ++ c ∷ post))
    → pairs o c ≡ true
    → Balanced w
    → reverse_close_expression lines linenum (length pre + length w + 1)
      ≡ some
          (record { line = pre ++ (o ∷ w ++ c ∷ post); linenum = linenum; pos = some (length pre) })
reverse_close_expression-one_line lines linenum pre o w c post e p b =
    let same : (pre ++ (o ∷ w)) ++ c ∷ post ≡ pre ++ (o ∷ w ++ c ∷ post) =
      append_assoc pre (o ∷ w) (c ∷ post) in
    ap (reverse_close_expression lines linenum) (omega (arith, length-append pre (o ∷ w)))
    ∙ reverse_close-at lines linenum pre o w c post (pre ++ (o ∷ w)) refl (e ∙ ap some (sym same)) p
        b
    ∙ ap (λ l. some (record { line = l; linenum = linenum; pos = some (length pre) })) same

-- On a line where a `(`, `[` or `{` is closed by the bracket of its kind, and the text between has no
-- `<` and no `>` and has its brackets in pairs: CloseExpression from the opening bracket returns a
-- position on that line, and ReverseCloseExpression from one position before it returns the opening
-- bracket on that line.
pub reverse-close :
    (lines : List Text) (linenum : ℕ) (pre : Text) (o : ℕ) (w : Text) (c : ℕ) (post : Text)
    → get_elem? lines linenum ≡ some (pre ++ (o ∷ w ++ c ∷ post))
    → pairs o c ≡ true
    → Balanced w
    → (end : ℕ) × (close_expression lines linenum (length pre)
        ≡ some (record { line = pre ++ (o ∷ w ++ c ∷ post); linenum = linenum; pos = some end }))
      × (reverse_close_expression lines linenum (end - 1)
          ≡ some (record {
            line = pre ++ (o ∷ w ++ c ∷ post);
            linenum = linenum;
            pos = some (length pre);
          }))
reverse-close lines linenum pre o w c post e p b =
    let back : length pre + length w + 2 - 1 ≡ length pre + length w + 1 = omega arith in
    (
      length pre + length w + 2,
      close_expression-one_line lines linenum pre o w c post e p b,
      ap (reverse_close_expression lines linenum) back
          ∙ reverse_close_expression-one_line lines linenum pre o w c post e p b,
    )
