-- ===== src/Style/Operators.antt =====
-- CheckOperatorSpacing of cpplint.py.
pub mod Hidden
use myframe.Common.{
  ℕ, zero, suc, Bool, false, not, ◌&&◌, ◌||◌, Option, none, some, List, [], ◌∷◌, ◌++◌, ◌==◌,
  if◌then◌else◌, length, get_or, all, map, ◌>>=◌,
}
use myframe.Text.{Text, codes, text_eq, has_char}
use myframe.Regex.{
  Regex, chr, alt, star, group, line_start, line_end, word_boundary, ◌&◌, group_text, match_pattern,
  search_pattern, matches, contains, is_word, is_some,
}
use myframe.Regex.Classes.{
  char, literal, one_of_or_space, none_of_nor_space, space, non_space, dot, plus, opt, one_text,
  alts, whole_word,
}
use myframe.Categories.{Diagnostic}
use myframe.Blocks.{report}
use myframe.Brackets.{Place, close_expression}
use myframe.Brackets.Reverse.{reverse_close_expression}

-- `^(.*\boperator\b)(\S+)(\s*\(.*)$`
unfoldable pub operator_name_pattern : Regex
operator_name_pattern =
    line_start
    & group 1 (star dot & whole_word (codes "operator"))
    & group 2 (plus non_space)
    & group 3 (star space & char b'(' & star dot)
    & line_end

abbrev pub underscores : Text → Text
underscores = map (λ c. b'_')

-- The loop that writes underscores for the name of an operator; `none` tells that the fuel ran out.
unfoldable pub hide_operators : ℕ → Text → Option Text
unfolding operator_name_pattern
hide_operators zero line = none
hide_operators (suc fuel) line = elim (match_pattern operator_name_pattern line) [
  | none ↦ some line
  | some m ↦
      hide_operators fuel (group_text 1 m ++ (underscores (group_text 2 m) ++ group_text 3 m))
]

abbrev pub operators : ℕ → ℕ → Text → List Diagnostic
operators linenum confidence message =
    report linenum (codes "whitespace/operators") confidence message ∷ []

-- `[\w.]=` and `=[\w.]`
abbrev word_or_dot : Regex
word_or_dot = chr (λ x. is_word x || x == b'.')

unfoldable pub tight_assignment_pattern : Regex
tight_assignment_pattern = alt (word_or_dot & char b'=') (char b'=' & word_or_dot)

-- `\b(if|while|for) `
unfoldable pub condition_pattern : Regex
condition_pattern =
    word_boundary & group 1 (one_text (codes "if" ∷ codes "while" ∷ codes "for" ∷ [])) & char 32

-- `(>=|<=|==|!=|&=|\^=|\|=|\+=|\*=|\/=|\%=)`
unfoldable pub compound_assignment_pattern : Regex
compound_assignment_pattern = group 1 (
    one_text (
      codes ">="
      ∷ codes "<="
      ∷ codes "=="
      ∷ codes "!="
      ∷ codes "&="
      ∷ codes "^="
      ∷ codes "|="
      ∷ codes "+="
      ∷ codes "*="
      ∷ codes "/="
      ∷ codes "%="
      ∷ []))

-- `operator=`
unfoldable pub check_assignment : Text → ℕ → List Diagnostic
unfolding tight_assignment_pattern condition_pattern compound_assignment_pattern
check_assignment line linenum =
    if contains tight_assignment_pattern line
      && (not (contains condition_pattern line)
          && (not (contains compound_assignment_pattern line)
              && not (contains (literal (codes "operator=")) line)))
    then operators linenum 4 (codes "Missing spaces around =")
    else []

-- `[^<>=!\s](==|!=|<=|>=|\|\|)[^<>=!\s,;\)]`
unfoldable pub tight_comparison_pattern : Regex
tight_comparison_pattern =
    none_of_nor_space (codes "<>=!")
    & group 1 (one_text (codes "==" ∷ codes "!=" ∷ codes "<=" ∷ codes ">=" ∷ codes "||" ∷ []))
    & none_of_nor_space (codes "<>=!,;)")

-- `#.*include`
unfoldable pub include_line_pattern : Regex
include_line_pattern = char b'#' & star dot & literal (codes "include")

-- `^(.*[^\s<])<[^\s=<,]` and `^(.*[^-\s>])>[^\s=>,]`
unfoldable pub tight_less_pattern : Regex
tight_less_pattern =
    line_start
    & group 1 (star dot & none_of_nor_space (codes "<"))
    & char b'<'
    & none_of_nor_space (codes "=<,")

unfoldable pub tight_greater_pattern : Regex
tight_greater_pattern =
    line_start
    & group 1 (star dot & none_of_nor_space (codes "->"))
    & char b'>'
    & none_of_nor_space (codes "=>,")

-- The bracket is not closed, or not opened. Its position is in the line, so there is no IndexError.
abbrev pub has_no_partner : Option Place → Bool
has_no_partner none = false
has_no_partner (some place) = not (is_some place.pos)

unfoldable pub check_less : List Text → Text → ℕ → List Diagnostic
unfolding tight_less_pattern close_expression
check_less elided line linenum = elim (match_pattern tight_less_pattern line) [
  | none ↦ []
  | some m ↦
      if has_no_partner (close_expression elided linenum (length (group_text 1 m)))
      then operators linenum 3 (codes "Missing spaces around <")
      else []
]

unfoldable pub check_greater : List Text → Text → ℕ → List Diagnostic
unfolding tight_greater_pattern reverse_close_expression
check_greater elided line linenum = elim (match_pattern tight_greater_pattern line) [
  | none ↦ []
  | some m ↦
      if has_no_partner (reverse_close_expression elided linenum (length (group_text 1 m)))
      then operators linenum 3 (codes "Missing spaces around >")
      else []
]

unfoldable pub check_comparison : List Text → Text → ℕ → List Diagnostic
unfolding tight_comparison_pattern include_line_pattern check_less check_greater
check_comparison elided line linenum = elim (search_pattern tight_comparison_pattern line) [
  | some m ↦ operators linenum 3 (codes "Missing spaces around " ++ group_text 1 m)
  | none ↦
      if matches include_line_pattern line
      then []
      else check_less elided line linenum ++ check_greater elided line linenum
]

-- `(operator|[^\s(<])(?:L|UL|LL|ULL|l|ul|ll|ull)?<<([^\s,=<])`
unfoldable pub tight_shift_pattern : Regex
tight_shift_pattern =
    group 1 (alt (literal (codes "operator")) (none_of_nor_space (codes "(<")))
    & opt (
        one_text (
          codes "L"
          ∷ codes "UL"
          ∷ codes "LL"
          ∷ codes "ULL"
          ∷ codes "l"
          ∷ codes "ul"
          ∷ codes "ll"
          ∷ codes "ull"
          ∷ []))
    & literal (codes "<<")
    & group 2 (none_of_nor_space (codes ",=<"))

-- s.isdigit(), on the digits of ASCII
abbrev is_digit_text : Text → Bool
is_digit_text [] = false
is_digit_text (c ∷ s) = all (has_char (codes "0123456789")) (c ∷ s)

unfoldable pub check_left_shift : Text → ℕ → List Diagnostic
unfolding tight_shift_pattern text_eq
check_left_shift line linenum = elim (search_pattern tight_shift_pattern line) [
  | none ↦ []
  | some m ↦
      let before = group_text 1 m in
      let behind = group_text 2 m in
      if (is_digit_text before && is_digit_text behind)
        || (text_eq before (codes "operator") && text_eq behind (codes ";"))
      then []
      else operators linenum 3 (codes "Missing spaces around <<")
]

-- `>>[a-zA-Z_]`
unfoldable pub tight_right_shift_pattern : Regex
tight_right_shift_pattern =
    literal (codes ">>") & chr (λ x. is_word x && not (has_char (codes "0123456789") x))

unfoldable pub check_right_shift : Text → ℕ → List Diagnostic
unfolding tight_right_shift_pattern
check_right_shift line linenum =
    if contains tight_right_shift_pattern line
    then operators linenum 3 (codes "Missing spaces around >>")
    else []

-- `(!\s|~\s|[\s]--[\s;]|[\s]\+\+[\s;])`
unfoldable pub spaced_unary_pattern : Regex
spaced_unary_pattern = group 1 (
    alts (
      (char b'!' & space)
      ∷ (char b'~' & space)
      ∷ (space & literal (codes "--") & one_of_or_space (codes ";"))
      ∷ (space & literal (codes "++") & one_of_or_space (codes ";"))
      ∷ []))

unfoldable pub check_unary : Text → ℕ → List Diagnostic
unfolding spaced_unary_pattern
check_unary line linenum = elim (search_pattern spaced_unary_pattern line) [
  | none ↦ []
  | some m ↦ operators linenum 4 (codes "Extra space for operator " ++ group_text 1 m)
]

-- CheckOperatorSpacing, on clean_lines.elided
unfoldable pub check_operator_spacing : List Text → ℕ → Option (List Diagnostic)
unfolding hide_operators check_assignment check_comparison check_left_shift check_right_shift
    check_unary
check_operator_spacing elided linenum = do
  line ← hide_operators (suc (length (get_or elided linenum []))) (get_or elided linenum [])
  some (
      check_assignment line linenum
      ++ (check_comparison elided line linenum
          ++ (check_left_shift line linenum
              ++ (check_right_shift line linenum ++ check_unary line linenum))))
