-- ===== src/Style/Parentheses.antt =====
-- CheckParenthesisSpacing and CheckCommaSpacing of cpplint.py.
use myframe.Common.{
  ℕ, suc, Bool, not, ◌&&◌, ◌||◌, none, some, List, [], ◌∷◌, ◌++◌, ltb, ◌==◌, if◌then◌else◌, length,
}
use myframe.Text.{Text, codes, text_eq}
use myframe.Regex.{
  Regex, star, group, line_end, word_boundary, ◌&◌, group_text, search_pattern, contains,
  replace_all,
}
use myframe.Regex.Classes.{char, literal, none_of, none_of_nor_space, space, dot, plus, one_text}
use myframe.Categories.{Diagnostic}
use myframe.Blocks.{report}

-- ` (if\(|for\(|while\(|switch\()`
unfoldable pub tight_keyword_pattern : Regex
tight_keyword_pattern =
    char 32
    & group 1 (one_text (codes "if(" ∷ codes "for(" ∷ codes "while(" ∷ codes "switch(" ∷ []))

-- `\b(if|for|while|switch)\s*\(([ ]*)(.).*[^ ]+([ ]*)\)\s*{\s*$`
unfoldable pub control_line_pattern : Regex
control_line_pattern =
    word_boundary
    & group 1 (one_text (codes "if" ∷ codes "for" ∷ codes "while" ∷ codes "switch" ∷ []))
    & star space
    & char b'('
    & group 2 (star (char 32))
    & group 3 dot
    & star dot
    & plus (none_of (codes " "))
    & group 4 (star (char 32))
    & char b')'
    & star space
    & char b'{'
    & star space
    & line_end

-- `\bfor\s*\(.*; \)`
unfoldable pub empty_increment_pattern : Regex
empty_increment_pattern =
    word_boundary
    & literal (codes "for")
    & star space
    & char b'('
    & star dot
    & literal (codes "; )")

-- The spaces inside the parentheses, `left` of them and `right`, may differ.
unfoldable pub may_mismatch : Text → Text → ℕ → ℕ → Bool
unfolding empty_increment_pattern text_eq
may_mismatch line first left right =
    (text_eq first (codes ";") && (left == suc right))
    || ((left == 0) && contains empty_increment_pattern line)

unfoldable pub check_control_spaces : Text → ℕ → List Diagnostic
unfolding control_line_pattern may_mismatch
check_control_spaces line linenum = elim (search_pattern control_line_pattern line) [
  | none ↦ []
  | some m ↦
      let left = length (group_text 2 m) in
      let right = length (group_text 4 m) in
      (if not (left == right) && not (may_mismatch line (group_text 3 m) left right)
        then report linenum (codes "whitespace/parens") 5
            (codes "Mismatching spaces inside () in " ++ group_text 1 m)
          ∷ []
        else [])
      ++ (if ltb 1 left
          then report linenum (codes "whitespace/parens") 5
              (codes "Should have zero or one spaces inside ( and ) in " ++ group_text 1 m)
            ∷ []
          else [])
]

-- CheckParenthesisSpacing, on clean_lines.elided[linenum]
unfoldable pub check_parenthesis_spacing : Text → ℕ → List Diagnostic
unfolding tight_keyword_pattern check_control_spaces
check_parenthesis_spacing line linenum =
    elim (search_pattern tight_keyword_pattern line) as (λ _. List Diagnostic) [
      | none ↦ []
      | some m ↦
          report linenum (codes "whitespace/parens") 5
            (codes "Missing space before ( in " ++ group_text 1 m)
          ∷ []
    ]
    ++ check_control_spaces line linenum

-- `,[^,\s]`, `\boperator\s*,\s*\(`, and `;[^\s};\\)/]`
unfoldable pub tight_comma_pattern : Regex
tight_comma_pattern = char b',' & none_of_nor_space (codes ",")

unfoldable pub comma_operator_pattern : Regex
comma_operator_pattern =
    word_boundary & literal (codes "operator") & star space & char b',' & star space & char b'('

unfoldable pub tight_semicolon_pattern : Regex
tight_semicolon_pattern = char b';' & none_of_nor_space (codes "};)/" ++ 92 ∷ [])

-- CheckCommaSpacing, on the line without raw strings and on clean_lines.elided[linenum]
unfoldable pub check_comma_spacing : Text → Text → ℕ → List Diagnostic
unfolding tight_comma_pattern comma_operator_pattern tight_semicolon_pattern
check_comma_spacing raw line linenum =
    (if contains tight_comma_pattern (replace_all comma_operator_pattern (codes "F(") line)
        && contains tight_comma_pattern raw
      then report linenum (codes "whitespace/comma") 3 (codes "Missing space after ,") ∷ []
      else [])
    ++ (if contains tight_semicolon_pattern line
        then report linenum (codes "whitespace/semicolon") 3 (codes "Missing space after ;") ∷ []
        else [])
