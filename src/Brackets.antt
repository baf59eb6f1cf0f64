-- ===== src/Brackets.antt =====
-- FindEndOfExpressionInLine and CloseExpression of cpplint.py. A stack is a list with its top in front.
pub mod Bounds
pub mod Balanced
pub mod Match
pub mod Reverse
use myframe.Common.{
  ℕ, zero, suc, ◌-◌, Bool, false, not, ◌&&◌, ◌||◌, Option, none, some, List, [], ◌∷◌, ltb, ◌==◌,
  if◌then◌else◌, length, take, drop, get_elem?, ◌>>=◌,
}
use myframe.Text.{Text, codes, has_char}
use myframe.Regex.{Regex, star, word_boundary, line_end, ◌&◌, matches, contains}
use myframe.Regex.Classes.{char, literal, space, one_of}

-- What one character of the scan does: it goes on with a stack, or it ends the expression here, or it
-- shows that the expression is not closed.
pub data Move : Type 0 where
  onward : List ℕ → Move
  close_here : Move
  give_up : Move

-- The results (pos, None), (-1, None) and (-1, stack)
pub data Scan : Type 0 where
  found : ℕ → Scan
  unclosed : Scan
  pending : List ℕ → Scan

-- `\boperator\s*$`
unfoldable pub operator_pattern : Regex
operator_pattern = word_boundary & literal (codes "operator") & star space & line_end

-- stack and stack[-1] == c
abbrev pub top_is : ℕ → List ℕ → Bool
top_is c [] = false
top_is c (d ∷ s) = d == c

-- while stack and stack[-1] == c: stack.pop()
unfoldable pub drop_top : ℕ → List ℕ → List ℕ
drop_top c [] = []
drop_top c (d ∷ s) = if d == c then drop_top c s else d ∷ s

-- i > 0 and line[i - 1] == c
abbrev pub previous_is : Text → ℕ → ℕ → Bool
previous_is line zero c = false
previous_is line (suc i) c = elim (get_elem? line i) [ none ↦ false | some d ↦ d == c ]

-- The stack after a pop that empties it or not
abbrev pub popped : Move → List ℕ → Move
popped empty [] = empty
popped empty (c ∷ s) = onward (c ∷ s)

-- The brackets of the two kinds match.
abbrev pub pairs : ℕ → ℕ → Bool
pairs o c = (o == b'(' && c == b')') || ((o == b'[' && c == b']') || (o == b'{' && c == b'}'))

-- A closing bracket, once the pending `<` are off the stack
abbrev pub close_bracket : ℕ → List ℕ → Move
close_bracket c [] = give_up
close_bracket c (d ∷ s) = if pairs d c then popped close_here s else give_up

-- A semicolon, once they are off the stack
abbrev pub end_statement : List ℕ → Move
end_statement = popped give_up

abbrev pub is_open : ℕ → Bool
is_open c = (c == b'(') || ((c == b'[') || (c == b'{'))

abbrev pub is_close : ℕ → Bool
is_close c = (c == b')') || ((c == b']') || (c == b'}'))

-- `<`: a shift operator, the operator's name, or perhaps a template argument list
unfoldable pub less_than : Text → ℕ → List ℕ → Move
unfolding operator_pattern
less_than line i stack =
    if previous_is line i b'<'
    then (if top_is b'<' stack then popped give_up (drop 1 stack) else onward stack)
    else if ltb 0 i && contains operator_pattern (take i line)
    then onward stack
    else onward (b'<' ∷ stack)

-- `>`: ignored in `->` and behind an operator's name, and where no `<` is pending
unfoldable pub greater_than : Text → ℕ → List ℕ → Move
unfolding operator_pattern
greater_than line i stack =
    if ltb 0 i && (previous_is line i b'-' || contains operator_pattern (take (i - 1) line))
    then onward stack
    else if top_is b'<' stack
    then popped close_here (drop 1 stack)
    else onward stack

-- One round of the loop of FindEndOfExpressionInLine
unfoldable pub end_move : Text → ℕ → ℕ → List ℕ → Move
unfolding drop_top
end_move line i c stack =
    if is_open c
    then onward (c ∷ stack)
    else if c == b'<'
    then less_than line i stack
    else if is_close c
    then close_bracket c (drop_top b'<' stack)
    else if c == b'>'
    then greater_than line i stack
    else if c == b';'
    then end_statement (drop_top b'<' stack)
    else onward stack

-- The loop from position `i`, where `rest` is line[i:]
unfoldable pub find_end_from : Text → ℕ → Text → List ℕ → Scan
find_end_from line i [] stack = pending stack
find_end_from line i (c ∷ rest) stack = elim (end_move line i c stack) [
  | onward s ↦ find_end_from line (suc i) rest s
  | close_here ↦ found (suc i)
  | give_up ↦ unclosed
]

-- FindEndOfExpressionInLine(line, startpos, stack)
unfoldable pub find_end_of_expression_in_line : Text → ℕ → List ℕ → Scan
unfolding find_end_from
find_end_of_expression_in_line line startpos stack =
    find_end_from line startpos (drop startpos line) stack

-- (line, linenum, pos), with `none` for -1
pub record Place : Type 0 where
  pub line : Text
  pub linenum : ℕ
  pub pos : Option ℕ

-- The loop over the following lines, where `lines` is elided[linenum + 1:]
unfoldable pub close_in_rest : ℕ → Text → ℕ → List Text → Scan → Place
close_in_rest num_lines line linenum lines (found p) = record {
  line = line;
  linenum = linenum;
  pos = some p;
}
close_in_rest num_lines line linenum lines unclosed = record {
  line = line;
  linenum = num_lines;
  pos = none;
}
close_in_rest num_lines line linenum lines (pending []) = record {
  line = line;
  linenum = num_lines;
  pos = none;
}
close_in_rest num_lines line linenum [] (pending (c ∷ s)) = record {
  line = line;
  linenum = num_lines;
  pos = none;
}
close_in_rest num_lines line linenum (next ∷ lines) (pending (c ∷ s)) =
    close_in_rest num_lines next (suc linenum) lines (find_end_of_expression_in_line next 0 (c ∷ s))

-- `<[<=]`
unfoldable pub shift_pattern : Regex
shift_pattern = char b'<' & one_of (codes "<=")

-- CloseExpression from a character `c` that is there
unfoldable pub close_from : List Text → ℕ → Text → ℕ → ℕ → Place
close_from lines linenum line pos c =
    if not (has_char (codes "({[<") c) || matches shift_pattern (drop pos line)
    then record { line = line; linenum = length lines; pos = none }
    else close_in_rest (length lines) line linenum (drop (suc linenum) lines)
        (find_end_of_expression_in_line line pos [])

-- CloseExpression(clean_lines, linenum, pos), over clean_lines.elided; `none` is the IndexError of a
-- line or a position that is not there.
unfoldable pub close_expression : List Text → ℕ → ℕ → Option Place
unfolding close_from
close_expression lines linenum pos = do
  line ← get_elem? lines linenum
  c ← get_elem? line pos
  some (close_from lines linenum line pos c)
