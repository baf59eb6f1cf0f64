-- ===== src/Brackets/Reverse.antt =====
-- FindStartOfExpressionInLine and ReverseCloseExpression of cpplint.py, which scan to the left.
pub mod Laws
use myframe.Common.{
  ℕ, suc, ◌-◌, Bool, true, false, not, ◌&&◌, ◌||◌, Option, none, some, List, [], ◌∷◌, ltb, ◌==◌,
  if◌then◌else◌, length, take, drop, get_elem?, ◌>>=◌,
}
use mathlib.Core.List.{reverse}
use myframe.Text.{Text, codes, has_char}
use myframe.Regex.{Regex, ◌&◌, matches, contains}
use myframe.Regex.Classes.{literal, space}
use myframe.Brackets.{
  Scan, found, unclosed, pending, Place, operator_pattern, top_is, drop_top, previous_is, pairs,
  is_open, is_close,
}

-- What one character does: it goes on, it goes on behind the next character, it is the start, or it
-- shows that there is none.
pub data BackMove : Type 0 where
  onward : List ℕ → BackMove
  skip : List ℕ → BackMove
  start_here : BackMove
  give_up : BackMove

abbrev pub popped : BackMove → List ℕ → BackMove
popped empty [] = empty
popped empty (c ∷ s) = onward (c ∷ s)

-- `\s>=\s`
unfoldable pub comparison_pattern : Regex
comparison_pattern = space & literal (codes ">=") & space

-- `>`: skipped with the character before it in `->`, ` >= ` and behind an operator's name
unfoldable pub back_greater_than : Text → ℕ → List ℕ → BackMove
unfolding operator_pattern comparison_pattern
back_greater_than line i stack =
    if ltb 0 i
      && (previous_is line i b'-'
          || (matches comparison_pattern (drop (i - 1) line)
              || contains operator_pattern (take i line)))
    then skip stack
    else onward (b'>' ∷ stack)

-- `<`: a shift operator, the start of the pending `>`, or ignored
unfoldable pub back_less_than : Text → ℕ → List ℕ → BackMove
back_less_than line i stack =
    if previous_is line i b'<'
    then skip stack
    else if top_is b'>' stack
    then popped start_here (drop 1 stack)
    else onward stack

-- An opening bracket, once the pending `>` are off the stack
abbrev pub open_bracket : ℕ → List ℕ → BackMove
open_bracket c [] = give_up
open_bracket c (d ∷ s) = if pairs c d then popped start_here s else give_up

abbrev pub begin_statement : List ℕ → BackMove
begin_statement = popped give_up

-- One round of the loop of FindStartOfExpressionInLine
unfoldable pub start_move : Text → ℕ → ℕ → List ℕ → BackMove
unfolding drop_top
start_move line i c stack =
    if is_close c
    then onward (c ∷ stack)
    else if c == b'>'
    then back_greater_than line i stack
    else if c == b'<'
    then back_less_than line i stack
    else if is_open c
    then open_bracket c (drop_top b'>' stack)
    else if c == b';'
    then begin_statement (drop_top b'>' stack)
    else onward stack

-- The loop, with one more than the position and what stands there and to the left, the nearest
-- character first; `skipping` passes over one character.
unfoldable pub find_start_from : Text → Bool → Text → List ℕ → Scan
find_start_from line skipping [] stack = pending stack
find_start_from line true (c ∷ before) stack = find_start_from line false before stack
find_start_from line false (c ∷ before) stack = elim (start_move line (length before) c stack) [
  | onward s ↦ find_start_from line false before s
  | skip s ↦ find_start_from line true before s
  | start_here ↦ found (length before)
  | give_up ↦ unclosed
]

-- FindStartOfExpressionInLine(line, endpos, stack), where `count` is endpos + 1
unfoldable pub find_start_of_expression_in_line : Text → ℕ → List ℕ → Scan
unfolding find_start_from
find_start_of_expression_in_line line count stack =
    find_start_from line false (reverse (take count line)) stack

-- The loop over the lines before, the nearest first
unfoldable pub open_in_rest : Text → ℕ → List Text → Scan → Place
open_in_rest line linenum lines (found p) = record { line = line; linenum = linenum; pos = some p }
open_in_rest line linenum lines unclosed = record { line = line; linenum = 0; pos = none }
open_in_rest line linenum lines (pending []) = record { line = line; linenum = 0; pos = none }
open_in_rest line linenum [] (pending (c ∷ s)) = record { line = line; linenum = 0; pos = none }
open_in_rest line linenum (next ∷ lines) (pending (c ∷ s)) =
    open_in_rest next (linenum - 1) lines
      (find_start_of_expression_in_line next (length next) (c ∷ s))

-- ReverseCloseExpression from a character `c` that is there
unfoldable pub open_from : List Text → ℕ → Text → ℕ → ℕ → Place
open_from lines linenum line pos c =
    if not (has_char (codes ")}]>") c)
    then record { line = line; linenum = 0; pos = none }
    else open_in_rest line linenum (reverse (take linenum lines))
        (find_start_of_expression_in_line line (suc pos) [])

-- ReverseCloseExpression(clean_lines, linenum, pos), over clean_lines.elided; `none` is the IndexError
-- of a line or a position that is not there.
unfoldable pub reverse_close_expression : List Text → ℕ → ℕ → Option Place
unfolding open_from
reverse_close_expression lines linenum pos = do
  line ← get_elem? lines linenum
  c ← get_elem? line pos
  some (open_from lines linenum line pos c)
