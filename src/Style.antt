-- ===== src/Style.antt =====
-- CheckStyle of cpplint.py, which puts the checks of its children together.
pub mod Calls
pub mod Comments
pub mod Spacing
pub mod Operators
pub mod Braces
pub mod Sections
pub mod Else
pub mod Bodies
pub mod Semicolons
pub mod EmptyBodies
pub mod Checks
pub mod AltTokens
pub mod Parentheses
pub mod Layout
pub mod Ends
use myframe.Common.{ℕ, ◌+◌, Option, none, some, List, [], ◌∷◌, ◌++◌, get_or, ◌>>=◌}
use myframe.Text.{Text}
use myframe.Categories.{Diagnostic}
use myframe.Blocks.{report}
use myframe.Cleanse.Lines.{CleansedLines}
use myframe.Blocks.{Block, ClassInfo, class_block}
use myframe.HeaderGuard.{Action}
use myframe.HeaderGuard as HeaderGuard
use myframe.Nesting.Update.{Nesting}
use myframe.Options.{Options, is_header_extension}
use myframe.Style.Calls.{check_spacing_for_function_call}
use myframe.Style.Spacing.{check_spacing}
use myframe.Style.Operators.{check_operator_spacing}
use myframe.Style.Parentheses.{check_parenthesis_spacing, check_comma_spacing}
use myframe.Style.Braces.{check_braces_spacing}
use myframe.Style.Sections.{check_section_spacing}
use myframe.Style.Bodies.{check_braces}
use myframe.Style.Semicolons.{check_trailing_semicolon}
use myframe.Style.EmptyBodies.{check_empty_block_body}
use myframe.Style.Checks.{check_check}
use myframe.Style.AltTokens.{check_alt_tokens}
use myframe.Style.Layout.{Unicode, get_line_width, check_layout}

-- InnermostClass(), with the line where it starts
unfoldable pub innermost_section : List Block → Option (ℕ × ClassInfo)
innermost_section [] = none
innermost_section (b ∷ bs) =
    let outer = innermost_section bs in
    elim b.kind [ class_block c ↦ some (b.starting_linenum, c) | _ ↦ outer ]

unfoldable pub check_sections : CleansedLines → ℕ → List Block → List Diagnostic
unfolding innermost_section check_section_spacing
check_sections clean linenum stack = elim (innermost_section stack) [
  | none ↦ []
  | some (starting_linenum, c) ↦ check_section_spacing clean.lines starting_linenum c linenum
]

abbrev pub reports : List Diagnostic → List Action
reports [] = []
reports (d ∷ ds) = HeaderGuard.Action.report d ∷ reports ds

-- CheckStyle, for a header guard named `cppvar`; `none` tells that a loop ran out of fuel.
unfoldable pub check_style :
    Unicode → Options → Text → Text → CleansedLines → ℕ → Nesting → Option (List Action)
unfolding is_header_extension check_layout check_braces check_trailing_semicolon
    check_empty_block_body check_spacing check_operator_spacing check_parenthesis_spacing
    check_comma_spacing check_braces_spacing check_spacing_for_function_call check_check
    check_alt_tokens check_sections
check_style u o cppvar file_extension clean linenum nesting =
    let line = get_or clean.elided linenum [] in
    let raw = get_or clean.lines_without_raw_strings linenum [] in
    let stack = nesting.state.stack in
    do
      operators ← check_operator_spacing clean.elided linenum
      some (
          reports (
            check_layout u o.line_length cppvar (is_header_extension file_extension o) clean linenum
            ++ check_braces (get_line_width u) o.line_length clean.elided linenum)
          ++ (check_trailing_semicolon clean linenum
              ++ reports (
                  check_empty_block_body clean linenum
                  ++ (check_spacing clean linenum nesting
                      ++ (operators
                          ++ (check_parenthesis_spacing line linenum
                              ++ (check_comma_spacing raw line linenum
                                  ++ (check_braces_spacing clean.elided linenum stack
                                      ++ (check_spacing_for_function_call line linenum
                                          ++ (check_check clean.elided linenum
                                              ++ (check_alt_tokens line linenum
                                                  ++ check_sections clean linenum stack)))))))))))
