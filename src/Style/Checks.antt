-- ===== src/Style/Checks.antt =====
-- FindCheckMacro and CheckCheck of cpplint.py.
pub mod Macros
pub mod Tokens
use myframe.Common.{
  ℕ, suc, ◌-◌, Bool, true, false, ◌||◌, Option, none, some, List, [], ◌∷◌, ◌++◌, ◌==◌,
  if◌then◌else◌, length, take, drop, get_or,
}
use myframe.Text.{Text, codes, has_text, strip, join}
use myframe.Regex.{
  Regex, alt, star, group, line_start, line_end, word_boundary, ◌&◌, group_text, match_pattern,
  matches,
}
use myframe.Regex.Classes.{char, literal, one_of, space, digit, dot, plus, opt, alts}
use myframe.Categories.{Diagnostic}
use myframe.Blocks.{report}
use myframe.Brackets.{Place, close_expression}
use myframe.Style.Checks.Macros.{
  CheckMacro, check, macro_name, check_macros, operator_text, check_replacement,
}
use myframe.Style.Checks.Tokens.{Sides, sides, no_sides, no_fuel, split_comparison}

-- `^(.*\b` macro `\s*)\(`
unfoldable pub macro_call_pattern : Text → Regex
macro_call_pattern name =
    line_start & group 1 (star dot & word_boundary & literal name & star space) & char b'('

unfoldable pub find_check_macro_in : List CheckMacro → Text → Option (CheckMacro × ℕ)
unfolding has_text macro_call_pattern
find_check_macro_in [] line = none
find_check_macro_in (macro ∷ rest) line =
    let later = find_check_macro_in rest line in
    if has_text line (macro_name macro)
    then elim (match_pattern (macro_call_pattern (macro_name macro)) line) [
      | none ↦ later
      | some m ↦ some (macro, length (group_text 1 m))
    ]
    else later

-- FindCheckMacro(line)
unfoldable pub find_check_macro : Text → Option (CheckMacro × ℕ)
unfolding find_check_macro_in check_macros
find_check_macro = find_check_macro_in check_macros

-- The argument of the macro, over lines linenum to end_line
unfoldable pub check_argument : List Text → ℕ → ℕ → Place → ℕ → Text
unfolding join
check_argument lines linenum start_pos place end_pos =
    let line = get_or lines linenum [] in
    if linenum == place.linenum
    then take (end_pos - 1 - suc start_pos) (drop (suc start_pos) line)
    else drop (suc start_pos) line
      ++ (join [] (drop (suc linenum) (take place.linenum lines)) ++ take (end_pos - 1) place.line)

-- `^([-+]?(\d+|0[xX][0-9a-fA-F]+)[lLuU]{0,3}|".*"|\'.*\')$`
unfoldable pub constant_pattern : Regex
constant_pattern =
    line_start
    & group 1 (
        alts (
          (opt (one_of (codes "-+"))
            & group 2 (
                alt (plus digit) (
                  char b'0' & one_of (codes "xX") & plus (one_of (codes "0123456789abcdefABCDEF"))))
            & opt (one_of (codes "lLuU"))
            & opt (one_of (codes "lLuU"))
            & opt (one_of (codes "lLuU")))
          ∷ (char 34 & star dot & char 34)
          ∷ (char 39 & star dot & char 39)
          ∷ []))
    & line_end

abbrev is_empty : Text → Bool
is_empty [] = true
is_empty (c ∷ s) = false

unfoldable pub check_sides : ℕ → CheckMacro → Sides → List Diagnostic
unfolding has_text strip constant_pattern check_replacement
check_sides linenum macro no_sides = []
check_sides linenum macro no_fuel = []
check_sides linenum macro (sides lhs op rhs) =
    if (is_empty lhs || is_empty rhs) || (has_text rhs (codes "&&") || has_text rhs (codes "||"))
    then []
    else if matches constant_pattern (strip lhs) || matches constant_pattern (strip rhs)
    then report linenum (codes "readability/check") 2 (
        codes "Consider using "
        ++ (check_replacement macro op
            ++ (codes " instead of "
                ++ (macro_name macro ++ (codes "(a " ++ (operator_text op ++ codes " b)"))))))
      ∷ []
    else []

-- `\s*;`
unfoldable pub statement_end_pattern : Regex
statement_end_pattern = star space & char b';'

-- CheckCheck, on clean_lines.elided
unfoldable pub check_check : List Text → ℕ → List Diagnostic
unfolding find_check_macro close_expression statement_end_pattern check_argument split_comparison
    check_sides
check_check lines linenum = elim (find_check_macro (get_or lines linenum [])) [
  | none ↦ []
  | some (macro, start_pos) ↦ elim (close_expression lines linenum start_pos) [
    | none ↦ []
    | some place ↦ elim place.pos [
      | none ↦ []
      | some end_pos ↦
          let expression = check_argument lines linenum start_pos place end_pos in
          if matches statement_end_pattern (drop end_pos place.line)
          then check_sides linenum macro (split_comparison (suc (length expression)) [] expression)
          else []
    ]
  ]
]
