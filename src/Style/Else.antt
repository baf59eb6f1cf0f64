-- ===== src/Style/Else.antt =====
-- The checks of CheckBraces of cpplint.py on a brace, an else or a do of the line.
use myframe.Common.{
  ℕ, ◌+◌, ◌-◌, Bool, true, not, ◌&&◌, ◌||◌, Option, none, some, List, [], ◌∷◌, ◌++◌, ltb,
  if◌then◌else◌, length, drop, get_or, ◌>>=◌,
}
use myframe.Text.{Text, codes, has_char, has_text, find}
use myframe.Regex.{Regex, star, line_end, word_boundary, ◌&◌, matches, contains}
use myframe.Regex.Classes.{
  char, literal, one_of, none_of, none_of_nor_space, space, alts, whole_word,
}
use myframe.Categories.{Diagnostic}
use myframe.Blocks.{report}
use myframe.Brackets.{close_expression}
use myframe.Common.Int.{ℤ, pos, negsuc}
use myframe.Style.Sections.{previous_line}

-- n > z - 2
abbrev is_almost_over : ℕ → ℤ → Bool
is_almost_over n (pos z) = ltb z (n + 2)
is_almost_over n (negsuc z) = true

-- `\s*{\s*$`, `[,;:}{(]\s*$`, and `\s*#`
unfoldable pub only_brace_pattern : Regex
only_brace_pattern = star space & char b'{' & star space & line_end

unfoldable pub open_end_pattern : Regex
open_end_pattern = one_of (codes ",;:}{(") & star space & line_end

unfoldable pub directive_line_pattern : Regex
directive_line_pattern = star space & char b'#'

-- A brace on a line of its own; `width` is GetLineWidth.
unfoldable pub check_brace_alone : (Text → ℕ) → ℤ → List Text → ℕ → List Diagnostic
unfolding only_brace_pattern open_end_pattern directive_line_pattern has_text
check_brace_alone width line_length elided linenum =
    let prevline = previous_line elided linenum in
    if matches only_brace_pattern (get_or elided linenum [])
      && (not (contains open_end_pattern prevline)
          && (not (matches directive_line_pattern prevline)
              && not
                  (is_almost_over (width prevline) line_length && has_text prevline (codes "[]"))))
    then report linenum (codes "whitespace/braces") 4
        (codes "{ should almost always be at the end of the previous line")
      ∷ []
    else []

-- `\s*else\b\s*(?:if\b|\{|$)` and `\s*}\s*$`
unfoldable pub else_line_pattern : Regex
else_line_pattern =
    star space
    & literal (codes "else")
    & word_boundary
    & star space
    & alts ((literal (codes "if") & word_boundary) ∷ char b'{' ∷ line_end ∷ [])

unfoldable pub only_closing_pattern : Regex
only_closing_pattern = star space & char b'}' & star space & line_end

unfoldable pub check_else_alone : List Text → ℕ → List Diagnostic
unfolding else_line_pattern only_closing_pattern
check_else_alone elided linenum =
    if matches else_line_pattern (get_or elided linenum [])
      && matches only_closing_pattern (previous_line elided linenum)
    then report linenum (codes "whitespace/newline") 4
        (codes "An else should appear on the same line as the preceding }")
      ∷ []
    else []

-- `else if\s*\(`, `}\s*else if\s*\(`, `}\s*else[^{]*$`, and `[^}]*else\s*{`
unfoldable pub else_if_pattern : Regex
else_if_pattern = literal (codes "else if") & star space & char b'('

unfoldable pub brace_else_if_pattern : Regex
brace_else_if_pattern = char b'}' & star space & else_if_pattern

unfoldable pub brace_left_pattern : Regex
brace_left_pattern =
    char b'}' & star space & literal (codes "else") & star (none_of (codes "{")) & line_end

unfoldable pub brace_right_pattern : Regex
brace_right_pattern = star (none_of (codes "}")) & literal (codes "else") & star space & char b'{'

abbrev one_sided : ℕ → List Diagnostic
one_sided linenum =
    report linenum (codes "readability/braces") 5
      (codes "If an else has a brace on one side, it should have it on both")
    ∷ []

-- line[pos:], where -1 is the last character
unfoldable pub line_from : Text → Option ℕ → Text
line_from line none = drop (length line - 1) line
line_from line (some p) = drop p line

-- line.find('(', line.find('else if')), which an `else if` has behind it
unfoldable pub condition_pos : Text → Option ℕ
unfolding find
condition_pos line = do
  at_else ← find line (codes "else if")
  behind ← find (drop at_else line) (codes "(")
  some (at_else + behind)

unfoldable pub check_else_if : List Text → ℕ → List Diagnostic
unfolding brace_else_if_pattern condition_pos line_from has_char close_expression
check_else_if elided linenum =
    let line = get_or elided linenum [] in
    elim (condition_pos line >>= λ p. close_expression elided linenum p) [
      | none ↦ []
      | some place ↦
          let brace_on_left = contains brace_else_if_pattern line in
          let brace_on_right = has_char (line_from place.line place.pos) b'{' in
          if (brace_on_left && not brace_on_right) || (not brace_on_left && brace_on_right)
          then one_sided linenum
          else []
    ]

unfoldable pub check_both_sides : List Text → ℕ → List Diagnostic
unfolding else_if_pattern check_else_if brace_left_pattern brace_right_pattern
check_both_sides elided linenum =
    let line = get_or elided linenum [] in
    if contains else_if_pattern line
    then check_else_if elided linenum
    else if contains brace_left_pattern line || matches brace_right_pattern line
    then one_sided linenum
    else []

-- `\belse [^\s{]`, `\belse if\b`, and `\s*do [^\s{]`
unfoldable pub else_clause_pattern : Regex
else_clause_pattern = word_boundary & literal (codes "else ") & none_of_nor_space (codes "{")

unfoldable pub do_clause_pattern : Regex
do_clause_pattern = star space & literal (codes "do ") & none_of_nor_space (codes "{")

unfoldable pub check_same_line : Text → ℕ → List Diagnostic
unfolding else_clause_pattern do_clause_pattern
check_same_line line linenum =
    (if contains else_clause_pattern line && not (contains (whole_word (codes "else if")) line)
      then report linenum (codes "whitespace/newline") 4
          (codes "Else clause should never be on same line as else (use 2 lines)")
        ∷ []
      else [])
    ++ (if matches do_clause_pattern line
        then report linenum (codes "whitespace/newline") 4
            (codes "do/while clauses should not be on a single line")
          ∷ []
        else [])
