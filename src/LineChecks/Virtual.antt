-- ===== src/LineChecks/Virtual.antt =====
-- CheckRedundantVirtual of cpplint.py.
use myframe.Common.{
  ℕ, zero, suc, ◌+◌, not, ◌||◌, Option, none, some, List, [], ◌∷◌, ◌++◌, ltb, if◌then◌else◌, length,
  drop, get_or,
}
use myframe.Text.{Text, codes}
use myframe.Regex.{
  Regex, chr, alt, star, group, line_start, line_end, word_boundary, ◌&◌, is_word, group_text,
  match_pattern, search_pattern, matches, contains,
}
use myframe.Regex.Classes.{char, literal, none_of, space, dot, plus, alts}
use myframe.Categories.{Diagnostic}
use myframe.Blocks.{report}
use myframe.Brackets.{close_expression}

abbrev access : Regex
access =
    group 1 (
      alts
        (literal (codes "public") ∷ literal (codes "protected") ∷ literal (codes "private") ∷ []))

-- `^(.*)(\bvirtual\b)(.*)$`
unfoldable pub virtual_pattern : Regex
virtual_pattern =
    line_start
    & group 1 (star dot)
    & group 2 (word_boundary & literal (codes "virtual") & word_boundary)
    & group 3 (star dot)
    & line_end

-- `\b(public|protected|private)\s+$` and `^\s+(public|protected|private)\b`
unfoldable pub access_before_pattern : Regex
access_before_pattern = word_boundary & access & plus space & line_end

unfoldable pub access_behind_pattern : Regex
access_behind_pattern = line_start & plus space & access & word_boundary

-- `^.*[^:]:[^:].*$`
unfoldable pub single_colon_pattern : Regex
single_colon_pattern =
    line_start
    & star dot
    & none_of (codes ":")
    & char b':'
    & none_of (codes ":")
    & star dot
    & line_end

-- `^([^(]*)\(`
unfoldable pub parameter_list_pattern : Regex
parameter_list_pattern = line_start & group 1 (star (none_of (codes "("))) & char b'('

-- The end of the parameter list that begins on one of the next `lines` lines, from column `start_col`
-- of the first one on. The character at the position is a `(`, so CloseExpression does not raise.
unfoldable pub parameter_list_end : ℕ → List Text → ℕ → ℕ → Option (ℕ × ℕ)
unfolding parameter_list_pattern close_expression
parameter_list_end zero elided start_line start_col = none
parameter_list_end (suc lines) elided start_line start_col =
    let later = parameter_list_end lines elided (suc start_line) 0 in
    if not (ltb start_line (length elided))
    then none
    else elim (match_pattern parameter_list_pattern
        (drop start_col (get_or elided start_line []))) [
          | none ↦ later
          | some m ↦
              elim (close_expression elided start_line (start_col + length (group_text 1 m))) [
                | none ↦ none
                | some place ↦ elim place.pos [
                  | none ↦ none
                  | some end_col ↦ some (place.linenum, end_col)
                ]
              ]
        ]

-- `\b(override|final)\b` and `[^\w]\s*$`
unfoldable pub specifier_pattern : Regex
specifier_pattern =
    word_boundary
    & group 1 (alt (literal (codes "override")) (literal (codes "final")))
    & word_boundary

unfoldable pub end_of_declarator_pattern : Regex
end_of_declarator_pattern = chr (λ c. not (is_word c)) & star space & line_end

-- The specifiers on the next `lines` lines, from column `end_col` of the first one on
unfoldable pub check_specifiers : ℕ → List Text → ℕ → ℕ → ℕ → List Diagnostic
unfolding specifier_pattern end_of_declarator_pattern
check_specifiers zero elided linenum i end_col = []
check_specifiers (suc lines) elided linenum i end_col =
    let line = drop end_col (get_or elided i []) in
    let later = check_specifiers lines elided linenum (suc i) 0 in
    let here = elim (search_pattern specifier_pattern line) as (λ _. List Diagnostic) [
      | none ↦ []
      | some m ↦
          report linenum (codes "readability/inheritance") 4 (
            (34 ∷ codes "virtual")
            ++ ((34 ∷ codes " is redundant since function is already declared as ")
                ++ (34 ∷ group_text 1 m ++ 34 ∷ [])))
          ∷ []
    ] in
    if not (ltb i (length elided))
    then []
    else if contains end_of_declarator_pattern line
    then here
    else here ++ later

-- CheckRedundantVirtual
unfoldable pub check_redundant_virtual : List Text → ℕ → List Diagnostic
unfolding virtual_pattern access_before_pattern access_behind_pattern single_colon_pattern
    parameter_list_end check_specifiers
check_redundant_virtual elided linenum =
    let line = get_or elided linenum [] in
    elim (match_pattern virtual_pattern line) [
      | none ↦ []
      | some m ↦
          if contains access_before_pattern (group_text 1 m)
            || matches access_behind_pattern (group_text 3 m)
            || matches single_colon_pattern line
          then []
          else elim (parameter_list_end 3 elided linenum (length (group_text 2 m))) [
            | none ↦ []
            | some (end_line, end_col) ↦ check_specifiers 3 elided linenum end_line end_col
          ]
    ]
