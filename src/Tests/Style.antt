-- ===== src/Tests/Style.antt =====
-- Runs of the checks of Style on concrete lines, and its theorems at concrete input.
use myframe.Common.{
  suc, ◌≡◌, ◌≢◌, refl, some, none, true, false, ℕ, List, [], ◌∷◌, ◌++◌, length, arith, All,
}
use myframe.Common.Int.{pos}
use myframe.Text.{Text, codes, is_one_of}
use myframe.Categories.{Diagnostic}
use myframe.Cleanse.Lines.{cleansed_lines}
use myframe.Regex.{match_pattern, group_text}
use myframe.Style.Calls.{check_spacing_for_function_call}
use myframe.Style.Comments.{check_comment}
use myframe.Style.Parentheses.{check_parenthesis_spacing, check_comma_spacing}
use myframe.Style.Braces.{check_braces_spacing}
use myframe.Style.Bodies.{check_braces}
use myframe.Style.Sections.{get_previous_non_blank_line}
use myframe.Style.Sections.Previous.{Previous, get_previous_non_blank_line-Previous}
use myframe.Style.EmptyBodies.{check_empty_block_body}
use myframe.Style.Checks.{check_check}
use myframe.Style.Checks.Macros.{
  expect_false, lt, suffix, replacement_prefix, check_replacement, Comparison,
}
use myframe.Style.Checks.Macros.Inverse.{holds, passes, check_replacement_lem}
use myframe.Style.Checks.Tokens.{split_comparison, no_fuel}
use myframe.Style.Checks.Tokens.Ends.{split_comparison-ne-no_fuel}
use myframe.Style.AltTokens.{check_alt_tokens, alt_tokens, keys, alt_token_pattern, find_all}
use myframe.Style.AltTokens.Keys.{alt_tokens-keys}
use myframe.Style.Operators.{operator_name_pattern, hide_operators}
use myframe.Style.Operators.Hidden.{hide_operators_lem}
use myframe.Style.Layout.{Unicode}

abbrev categories : List Diagnostic → List Text
categories [] = []
categories (d ∷ ds) = d.category ∷ categories ds

space_in_call :
    categories (check_spacing_for_function_call (codes "f( a);") 1) ≡ codes "whitespace/parens" ∷ []
unfolding check_spacing_for_function_call myframe.Regex.search_pattern myframe.Regex.match_pattern
    myframe.Text.is_space myframe.Text.has_char
space_in_call = refl

condition : categories (check_spacing_for_function_call (codes "if (f(a)) {") 1) ≡ []
unfolding check_spacing_for_function_call myframe.Regex.search_pattern myframe.Regex.match_pattern
    myframe.Text.is_space myframe.Text.has_char
condition = refl

todo :
    categories (check_comment (codes "a;  //  TODO: b") 1 0)
    ≡ codes "whitespace/todo" ∷ codes "readability/todo" ∷ []
unfolding check_comment myframe.Regex.search_pattern myframe.Regex.match_pattern
    myframe.Text.is_space myframe.Text.has_char myframe.Text.find myframe.Text.text_eq
    myframe.Regex.replace_all
todo = refl

close_comment : categories (check_comment (codes "a; // b") 1 0) ≡ codes "whitespace/comments" ∷ []
unfolding check_comment myframe.Regex.search_pattern myframe.Regex.match_pattern
    myframe.Text.is_space myframe.Text.has_char myframe.Text.find myframe.Text.text_eq
    myframe.Regex.replace_all
close_comment = refl

renamed_operator :
    categories (check_parenthesis_spacing (codes "  if(a) {") 1) ≡ codes "whitespace/parens" ∷ []
unfolding check_parenthesis_spacing myframe.Regex.search_pattern myframe.Regex.match_pattern
    myframe.Text.is_space myframe.Text.has_char
renamed_operator = refl

tight_comma :
    categories (check_comma_spacing (codes "f(a,b);") (codes "f(a,b);") 1)
    ≡ codes "whitespace/comma" ∷ []
unfolding check_comma_spacing myframe.Regex.search_pattern myframe.Regex.match_pattern
    myframe.Text.is_space myframe.Text.has_char myframe.Regex.replace_all
tight_comma = refl

tight_brace :
    categories
      (check_braces_spacing (codes "" ∷ codes "void f(){" ∷ codes "}" ∷ codes "" ∷ []) 1 [])
    ≡ codes "whitespace/braces" ∷ []
unfolding check_braces_spacing myframe.Regex.search_pattern myframe.Regex.match_pattern
    myframe.Text.is_space myframe.Text.has_char myframe.Brackets.close_in_rest
    myframe.Brackets.find_end_of_expression_in_line myframe.Brackets.close_expression
    myframe.Brackets.shift_pattern myframe.Brackets.end_move myframe.Text.join
tight_brace = refl

initializer :
    categories (check_braces_spacing (codes "" ∷ codes "int{0};" ∷ codes "" ∷ codes "" ∷ []) 1 [])
    ≡ []
unfolding check_braces_spacing myframe.Regex.search_pattern myframe.Regex.match_pattern
    myframe.Text.is_space myframe.Text.has_char myframe.Brackets.close_in_rest
    myframe.Brackets.find_end_of_expression_in_line myframe.Brackets.shift_pattern
    myframe.Brackets.end_move
initializer = refl

alone :
    categories (check_braces length (pos 80) (codes "" ∷ codes "void f()" ∷ codes "{" ∷ []) 2)
    ≡ codes "whitespace/braces" ∷ []
unfolding check_braces myframe.Regex.search_pattern myframe.Regex.match_pattern
    myframe.Text.is_space myframe.Text.has_char myframe.Style.Sections.get_previous_non_blank_line
alone = refl

one_sided_else :
    categories (check_braces length (pos 80) (codes "" ∷ codes "} else" ∷ codes "  a;" ∷ []) 1)
    ≡ codes "readability/braces" ∷ []
unfolding check_braces myframe.Regex.search_pattern myframe.Regex.match_pattern
    myframe.Text.is_space myframe.Text.has_char myframe.Style.Sections.get_previous_non_blank_line
    myframe.Text.find myframe.Text.text_eq
one_sided_else = refl

two_statements :
    categories (check_braces length (pos 80) (codes "" ∷ codes "if (a)" ∷ codes "  b; c;" ∷ []) 1)
    ≡ codes "readability/braces" ∷ []
unfolding check_braces myframe.Regex.search_pattern myframe.Regex.match_pattern
    myframe.Text.is_space myframe.Text.has_char myframe.Style.Sections.get_previous_non_blank_line
    myframe.Text.find myframe.Text.text_eq myframe.Brackets.close_in_rest
    myframe.Brackets.find_end_of_expression_in_line myframe.Brackets.shift_pattern
    myframe.Brackets.end_move
two_statements = refl

constant_check :
    categories (check_check (codes "" ∷ codes "EXPECT_FALSE(a == 1);" ∷ []) 1)
    ≡ codes "readability/check" ∷ []
unfolding check_check myframe.Regex.search_pattern myframe.Regex.match_pattern myframe.Text.is_space
    myframe.Text.has_char myframe.Text.find myframe.Text.text_eq myframe.Brackets.close_in_rest
    myframe.Brackets.find_end_of_expression_in_line myframe.Brackets.shift_pattern
    myframe.Brackets.end_move
constant_check = refl

variables : categories (check_check (codes "" ∷ codes "CHECK(a == b);" ∷ []) 1) ≡ []
unfolding check_check myframe.Regex.search_pattern myframe.Regex.match_pattern myframe.Text.is_space
    myframe.Text.has_char myframe.Text.find myframe.Text.text_eq myframe.Brackets.close_in_rest
    myframe.Brackets.find_end_of_expression_in_line myframe.Brackets.shift_pattern
    myframe.Brackets.end_move
variables = refl

alt_token :
    categories (check_alt_tokens (codes "if (a and not b)") 1)
    ≡ codes "readability/alt_tokens" ∷ codes "readability/alt_tokens" ∷ []
unfolding check_alt_tokens myframe.Regex.search_pattern myframe.Regex.match_pattern
    myframe.Text.is_space myframe.Text.has_char myframe.Text.find myframe.Text.text_eq
alt_token = refl

empty_loop :
    categories (check_empty_block_body (cleansed_lines (codes "" ∷ codes "while (a);" ∷ [])) 1)
    ≡ codes "whitespace/empty_loop_body" ∷ []
unfolding check_empty_block_body myframe.Regex.search_pattern myframe.Regex.match_pattern
    myframe.Text.is_space myframe.Text.has_char myframe.Text.find myframe.Text.text_eq
    myframe.Brackets.close_in_rest myframe.Brackets.find_end_of_expression_in_line cleansed_lines
    myframe.Regex.replace_all myframe.Brackets.shift_pattern myframe.Brackets.end_move
empty_loop = refl

empty_if :
    categories
      (check_empty_block_body (cleansed_lines (codes "" ∷ codes "if (a) {" ∷ codes "}" ∷ [])) 1)
    ≡ codes "whitespace/empty_if_body" ∷ []
unfolding check_empty_block_body myframe.Regex.search_pattern myframe.Regex.match_pattern
    myframe.Text.is_space myframe.Text.has_char myframe.Text.find myframe.Text.text_eq
    myframe.Brackets.close_in_rest myframe.Brackets.find_end_of_expression_in_line cleansed_lines
    myframe.Regex.replace_all myframe.Brackets.shift_pattern myframe.Brackets.end_move
empty_if = refl

hide_operators_lem_example :
    (hidden : Text) × (hide_operators
        (suc (length (codes "bool operator==(A a);")))
        (codes "bool operator==(A a);")
      ≡ some hidden)
    × (match_pattern operator_name_pattern hidden ≡ none)
hide_operators_lem_example = hide_operators_lem (codes "bool operator==(A a);")

split_comparison-ne-no_fuel_example : split_comparison 9 [] (codes "f(a) < 3") ≢ no_fuel
split_comparison-ne-no_fuel_example =
    split_comparison-ne-no_fuel 9 [] (codes "f(a) < 3") (omega arith)

check_replacement_lem_example :
    (op : Comparison) × (check_replacement expect_false lt
      ≡ replacement_prefix expect_false ++ suffix op)
    × ((a b : ℕ) → holds op a b ≡ passes expect_false (holds lt a b))
check_replacement_lem_example = check_replacement_lem expect_false lt

abbrev four_lines : List Text
four_lines = codes "a;" ∷ [] ∷ codes "  " ∷ codes "b;" ∷ []

get_previous_non_blank_line-Previous_example :
    Previous four_lines 3 (get_previous_non_blank_line four_lines 3)
get_previous_non_blank_line-Previous_example =
    get_previous_non_blank_line-Previous four_lines 3 (omega arith)

abbrev ascii : Unicode
ascii = record { normalize = λ t. t; is_wide = λ c. false; is_combining = λ c. false }

alt_tokens-keys_example :
    All
      (λ m. is_one_of (group_text 1 m) (keys alt_tokens) ≡ true)
      (find_all alt_token_pattern 0 [] (codes "if (a and not b)"))
alt_tokens-keys_example = alt_tokens-keys (codes "if (a and not b)")
