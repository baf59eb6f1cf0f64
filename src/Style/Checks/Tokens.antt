-- ===== src/Style/Checks/Tokens.antt =====
-- The loop of CheckCheck of cpplint.py over the argument of a macro.
pub mod Ends
use myframe.Common.{
  ℕ, zero, suc, ◌-◌, ◌||◌, Option, none, some, List, [], ◌∷◌, ◌++◌, ◌==◌, if◌then◌else◌, take, drop,
}
use myframe.Text.{Text, codes, text_eq, is_one_of}
use myframe.Regex.{Regex, star, group, line_start, line_end, ◌&◌, group_text, match_pattern}
use myframe.Regex.Classes.{none_of, space, non_space, dot, plus, one_text}
use myframe.Brackets.{found, find_end_of_expression_in_line}
use myframe.Style.Checks.Macros.{Comparison, eq, ne, ge, gt, le, lt}

-- The operators, in the order of the pattern
abbrev pub operator_texts : List Text
operator_texts =
    codes "<<"
    ∷ codes "<<="
    ∷ codes ">>"
    ∷ codes ">>="
    ∷ codes "->*"
    ∷ codes "->"
    ∷ codes "&&"
    ∷ codes "||"
    ∷ codes "=="
    ∷ codes "!="
    ∷ codes ">="
    ∷ codes ">"
    ∷ codes "<="
    ∷ codes "<"
    ∷ codes "("
    ∷ []

-- `^\s*(<<|<<=|>>|>>=|->\*|->|&&|\|\||==|!=|>=|>|<=|<|\()(.*)$`
unfoldable pub operator_token_pattern : Regex
operator_token_pattern =
    line_start & star space & group 1 (one_text operator_texts) & group 2 (star dot) & line_end

-- `^([^-=!<>()&|]+)(.*)$` and `^(\s*\S)(.*)$`
unfoldable pub operand_pattern : Regex
operand_pattern =
    line_start & group 1 (plus (none_of (codes "-=!<>()&|"))) & group 2 (star dot) & line_end

unfoldable pub any_operand_pattern : Regex
any_operand_pattern = line_start & group 1 (star space & non_space) & group 2 (star dot) & line_end

-- What a round finds: the left side goes on, the comparison is there, the expression is at its end, or
-- CheckCheck returns_token.
pub data Token : Type 0 where
  operand : Text → Text → Token
  compare_with : Comparison → Text → Token
  at_end_token : Token
  returns_token : Token

unfoldable pub comparison_of : Text → Option Comparison
unfolding text_eq
comparison_of t =
    if text_eq t (codes "==")
    then some eq
    else if text_eq t (codes "!=")
    then some ne
    else if text_eq t (codes ">=")
    then some ge
    else if text_eq t (codes ">")
    then some gt
    else if text_eq t (codes "<=")
    then some le
    else if text_eq t (codes "<")
    then some lt
    else none

unfoldable pub parenthesis_token : Text → Token
unfolding find_end_of_expression_in_line
parenthesis_token rest = elim (find_end_of_expression_in_line rest 0 (b'(' ∷ [])) [
  | found end ↦ operand (b'(' ∷ take end rest) (drop end rest)
  | _ ↦ returns_token
]

unfoldable pub operator_token : Text → Text → Token
unfolding parenthesis_token comparison_of text_eq is_one_of
operator_token token rest =
    if text_eq token (codes "(")
    then parenthesis_token rest
    else if is_one_of token (codes "&&" ∷ codes "||" ∷ [])
    then returns_token
    else elim (comparison_of token) [ some op ↦ compare_with op rest | none ↦ operand token rest ]

unfoldable pub operand_token : Text → Token
unfolding operand_pattern any_operand_pattern
operand_token expression = elim (match_pattern operand_pattern expression) [
  | some m ↦ operand (group_text 1 m) (group_text 2 m)
  | none ↦ elim (match_pattern any_operand_pattern expression) [
    | some m ↦ operand (group_text 1 m) (group_text 2 m)
    | none ↦ at_end_token
  ]
]

-- A round of the loop
unfoldable pub next_token : Text → Token
unfolding operator_token_pattern operator_token operand_token
next_token [] = at_end_token
next_token (c ∷ s) = elim (match_pattern operator_token_pattern (c ∷ s)) [
  | some m ↦ operator_token (group_text 1 m) (group_text 2 m)
  | none ↦ operand_token (c ∷ s)
]

-- The two sides and the operator of the argument, `none` where CheckCheck returns_token before or there is
-- no operator
pub data Sides : Type 0 where
  sides : Text → Comparison → Text → Sides
  no_sides : Sides
  no_fuel : Sides

-- The loop, whose rounds each leave a shorter expression
unfoldable pub split_comparison : ℕ → Text → Text → Sides
unfolding next_token
split_comparison zero lhs expression = no_fuel
split_comparison (suc fuel) lhs expression = elim (next_token expression) [
  | operand text rest ↦ split_comparison fuel (lhs ++ text) rest
  | compare_with op rhs ↦ sides lhs op rhs
  | at_end_token ↦ no_sides
  | returns_token ↦ no_sides
]
