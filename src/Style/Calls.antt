-- ===== src/Style/Calls.antt =====
-- CheckSpacingForFunctionCall of cpplint.py. Each check of Style takes the lines that it reads, and
-- returns what it reports in order.
use myframe.Common.{ℕ, not, ◌&&◌, ◌||◌, none, some, List, [], ◌∷◌, ◌++◌, if◌then◌else◌}
use myframe.Text.{Text, codes}
use myframe.Regex.{
  Regex, alt, star, group, line_start, line_end, word_boundary, not_ahead, ◌&◌, group_text,
  search_pattern, contains,
}
use myframe.Regex.Classes.{
  char, literal, one_of, none_of, none_of_nor_space, space, word, dot, plus, opt, one_text,
}
use myframe.Categories.{Diagnostic}
use myframe.Blocks.{report}

-- `\bif\s*\((.*)\)\s*{` and the like: the keyword, and what may stand behind the parentheses
abbrev control : Text → Text → Regex
control keyword behind =
    word_boundary
    & literal keyword
    & star space
    & char b'('
    & group 1 (star dot)
    & char b')'
    & star space
    & one_of behind

unfoldable pub control_patterns : List Regex
control_patterns =
    control (codes "if") (codes "{")
    ∷ control (codes "for") (codes "{")
    ∷ control (codes "while") (codes "{;")
    ∷ control (codes "switch") (codes "{")
    ∷ []

-- The part of the line that is looked at: inside the parentheses of the first construct that is there
unfoldable pub call_text : List Regex → Text → Text
call_text [] line = line
call_text (pattern ∷ rest) line =
    let later = call_text rest line in
    elim (search_pattern pattern line) [ none ↦ later | some m ↦ group_text 1 m ]

-- `\b(if|elif|for|while|switch|return|new|delete|catch|sizeof)\b`
unfoldable pub keyword_pattern : Regex
keyword_pattern =
    word_boundary
    & group 1 (
        one_text (
          codes "if"
          ∷ codes "elif"
          ∷ codes "for"
          ∷ codes "while"
          ∷ codes "switch"
          ∷ codes "return"
          ∷ codes "new"
          ∷ codes "delete"
          ∷ codes "catch"
          ∷ codes "sizeof"
          ∷ []))
    & word_boundary

-- ` \([^)]+\)\([^)]*(\)|,$)`
unfoldable pub function_pointer_pattern : Regex
function_pointer_pattern =
    literal (codes " (")
    & plus (none_of (codes ")"))
    & literal (codes ")(")
    & star (none_of (codes ")"))
    & group 1 (alt (char b')') (char b',' & line_end))

-- ` \([^)]+\)\[[^\]]+\]`
unfoldable pub array_pointer_pattern : Regex
array_pointer_pattern =
    literal (codes " (")
    & plus (none_of (codes ")"))
    & literal (codes ")[")
    & plus (none_of (codes "]"))
    & char b']'

-- `\w\s*\(\s(?!\s*\\$)`
unfoldable pub space_in_call_pattern : Regex
space_in_call_pattern =
    word & star space & char b'(' & space & not_ahead (star space & char 92 & line_end)

-- `\(\s+(?!(\s*\\)|\()`
unfoldable pub space_in_parentheses_pattern : Regex
space_in_parentheses_pattern =
    char b'(' & plus space & not_ahead (alt (group 1 (star space & char 92)) (char b'('))

-- `\w\s+\(`
unfoldable pub space_before_pattern : Regex
space_before_pattern = word & plus space & char b'('

abbrev two_underscores : Regex
two_underscores = opt (char b'_') & opt (char b'_')

-- `_{0,2}asm_{0,2}\s+_{0,2}volatile_{0,2}\s+\(`
unfoldable pub asm_volatile_pattern : Regex
asm_volatile_pattern =
    two_underscores
    & literal (codes "asm")
    & two_underscores
    & plus space
    & two_underscores
    & literal (codes "volatile")
    & two_underscores
    & plus space
    & char b'('

-- `#\s*define|typedef|using\s+\w+\s*=`
unfoldable pub definition_pattern : Regex
definition_pattern = alt (char b'#' & star space & literal (codes "define")) (
    alt (literal (codes "typedef"))
      (literal (codes "using") & plus space & plus word & star space & char b'='))

-- `\w\s+\((\w+::)*\*\w+\)\(`
unfoldable pub member_pointer_pattern : Regex
member_pointer_pattern =
    word
    & plus space
    & char b'('
    & star (group 1 (plus word & literal (codes "::")))
    & char b'*'
    & plus word
    & literal (codes ")(")

-- `\bcase\s+\(`
unfoldable pub case_pattern : Regex
case_pattern = word_boundary & literal (codes "case") & plus space & char b'('

-- `\boperator_*\b`
unfoldable pub operator_word_pattern : Regex
operator_word_pattern =
    word_boundary & literal (codes "operator") & star (char b'_') & word_boundary

-- `[^)]\s+\)\s*[^{\s]`
unfoldable pub space_before_closing_pattern : Regex
space_before_closing_pattern =
    none_of (codes ")") & plus space & char b')' & star space & none_of_nor_space (codes "{")

-- `^\s+\)`
unfoldable pub closing_first_pattern : Regex
closing_first_pattern = line_start & plus space & char b')'

abbrev parens : ℕ → ℕ → Text → List Diagnostic
parens linenum confidence message =
    report linenum (codes "whitespace/parens") confidence message ∷ []

unfoldable pub check_space_after : Text → ℕ → List Diagnostic
unfolding space_in_call_pattern space_in_parentheses_pattern
check_space_after call linenum =
    if contains space_in_call_pattern call
    then parens linenum 4 (codes "Extra space after ( in function call")
    else if contains space_in_parentheses_pattern call
    then parens linenum 2 (codes "Extra space after (")
    else []

unfoldable pub check_space_before : Text → Text → ℕ → List Diagnostic
unfolding space_before_pattern asm_volatile_pattern definition_pattern member_pointer_pattern
    case_pattern operator_word_pattern
check_space_before line call linenum =
    if contains space_before_pattern call
      && (not (contains asm_volatile_pattern call)
          && (not (contains definition_pattern call)
              && (not (contains member_pointer_pattern call) && not (contains case_pattern call))))
    then parens linenum (if contains operator_word_pattern line then 0 else 4)
        (codes "Extra space before ( in function call")
    else []

unfoldable pub check_space_before_closing : Text → ℕ → List Diagnostic
unfolding space_before_closing_pattern closing_first_pattern
check_space_before_closing call linenum =
    if not (contains space_before_closing_pattern call)
    then []
    else if contains closing_first_pattern call
    then parens linenum 2 (codes "Closing ) should be moved to the previous line")
    else parens linenum 2 (codes "Extra space before )")

-- CheckSpacingForFunctionCall, on clean_lines.elided[linenum]
unfoldable pub check_spacing_for_function_call : Text → ℕ → List Diagnostic
unfolding call_text control_patterns keyword_pattern function_pointer_pattern array_pointer_pattern
    check_space_after check_space_before check_space_before_closing
check_spacing_for_function_call line linenum =
    let call = call_text control_patterns line in
    if contains keyword_pattern call
      || (contains function_pointer_pattern call || contains array_pointer_pattern call)
    then []
    else check_space_after call linenum
      ++ (check_space_before line call linenum ++ check_space_before_closing call linenum)
