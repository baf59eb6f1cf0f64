-- ===== src/Driver.antt =====
-- ProcessLine and ProcessFileData of cpplint.py: how the checks of a file are put together. The checks
-- that are not modelled are a parameter: they report, and CheckLanguage changes the include state.
pub mod Cxx11
pub mod File
pub mod Main
pub mod Holds
pub mod Saved
pub mod Completes
pub mod Restored
pub mod Silenced
use myframe.Common.{
  any, ◌||◌, ℕ, zero, suc, ◌+◌, Option, some, List, [], ◌∷◌, ◌++◌, if◌then◌else◌, get_or, ◌>>=◌,
}
use myframe.Text.{Text, codes}
use myframe.Categories.{Diagnostic}
use myframe.Suppress.{
  Suppressions, parse_nolint_suppressions, process_global_suppressions, reset_nolint_suppressions,
}
use myframe.Lint.{LintState, Console}
use myframe.Lint.Report.{report_error}
use myframe.Functions.{FunctionState, init_function_state, check_for_function_lengths}
use myframe.Cleanse.Comments.{remove_multi_line_comments}
use myframe.Cleanse.Lines.{CleansedLines, cleansed_lines}
use myframe.FileChecks.{
  check_for_copyright, check_for_bad_characters, check_for_newline_at_eof,
  check_for_multiline_comments_and_strings, check_invalid_increment,
}
use myframe.LineChecks.{
  check_posix_threading, check_vlog_arguments, check_make_pair_uses_deduction,
  check_redundant_override_or_final,
}
use myframe.LineChecks.Virtual.{check_redundant_virtual}
use myframe.Regex.{contains}
use myframe.HeaderGuard.{
  Action, parse_nolint, report, nolint_guard_pattern, pragma_pattern, check_for_header_guard,
}
use myframe.Includes.{IncludeState, init_include_state}
use myframe.Nesting.Stack.{in_asm_block}
use myframe.Nesting.Update.{
  Nesting, init_nesting, update, check_completed_blocks, check_for_namespace_indentation,
}
use myframe.Options.{Options, is_header_extension, is_source_extension}
use myframe.Style.Layout.{Unicode}
use myframe.Style.{check_style}
use myframe.Driver.Cxx11.{flag_cxx11_features}

-- GetHeaderGuardCPPVariable, the module unicodedata, CheckLanguage, the two checks behind it, the extra checks,
-- CheckForIncludeWhatYouUse and CheckHeaderFileIncluded. `none` is an exception, or a loop that does not
-- end.
pub record Checks : Type 0 where
  pub guard_variable : Text → Option Text
  pub unicode : Unicode
  pub language :
      Text → CleansedLines → ℕ → Nesting → IncludeState → Option (IncludeState × List Diagnostic)
  pub behind_language : CleansedLines → ℕ → Nesting → Option (List Diagnostic)
  pub extra : CleansedLines → ℕ → Option (List Diagnostic)
  pub what_you_use : CleansedLines → IncludeState → Option (List Diagnostic)
  pub header_included : IncludeState → Option (List Diagnostic)

-- The state of the checks of one file, with the module-wide state
pub record Linting : Type 0 where
  pub include_state : IncludeState
  pub function_state : FunctionState
  pub nesting : Nesting
  pub suppressions : Suppressions
  pub lint : LintState
  pub console : Console

-- The calls of Error, one after another; `none` is a failed assertion.
unfoldable pub report_all : Text → List Diagnostic → Linting → Option Linting
unfolding report_error
report_all filename [] st = some st
report_all filename (d ∷ ds) st = do
  (lint, console) ← report_error filename st.suppressions d (st.lint, st.console)
  report_all filename ds (record st { lint = lint; console = console })

-- ParseNolintSuppressions(filename, raw_line, linenum, error)
unfoldable pub parse_nolint_in : Text → Text → ℕ → Linting → Option Linting
parse_nolint_in filename raw_line linenum st =
    let (sup, ds) = parse_nolint_suppressions raw_line linenum st.suppressions in
    report_all filename ds (record st { suppressions = sup })

-- What a check does, in order
unfoldable pub run_actions : Text → List Action → Linting → Option Linting
run_actions filename [] st = some st
run_actions filename (report d ∷ rest) st = do
  st' ← report_all filename (d ∷ []) st
  run_actions filename rest st'
run_actions filename (parse_nolint raw_line linenum ∷ rest) st = do
  st' ← parse_nolint_in filename raw_line linenum st
  run_actions filename rest st'

module _ (checks : Checks) (o : Options) (filename file_extension : Text)
    (clean : CleansedLines) where
  -- The checks of a line that is not in an assembly block
  unfoldable pub check_line : ℕ → Linting → Option Linting
  check_line line st = do
    let (f, long) =
        check_for_function_lengths st.lint.verbose_level clean.lines line st.function_state
    st1 ← report_all filename long (record st { function_state = f })
    let elided = get_or clean.elided line []
    st2 ← report_all filename (check_for_multiline_comments_and_strings elided line) st1
    cppvar ←
        (if is_header_extension file_extension o then checks.guard_variable filename else some [])
    style ← check_style checks.unicode o cppvar file_extension clean line st2.nesting
    st3 ← run_actions filename style st2
    (i, language) ← checks.language file_extension clean line st3.nesting st3.include_state
    st4 ← report_all filename language (record st3 { include_state = i })
    behind ← checks.behind_language clean line st4.nesting
    st5 ←
        report_all filename
          (behind ++ (check_vlog_arguments elided line ++ check_posix_threading elided line)) st4
    st6 ← report_all filename (check_invalid_increment elided line) st5
    extra ← checks.extra clean line
    report_all filename
        (check_make_pair_uses_deduction elided line
          ++ (check_redundant_virtual clean.elided line
              ++ (check_redundant_override_or_final clean.elided line ++ extra)))
        st6

  -- ProcessLine
  unfoldable pub process_line : ℕ → Linting → Option Linting
  process_line line st = do
    st1 ← parse_nolint_in filename (get_or clean.raw_lines line []) line st
    let (n, blocks) = update clean line st1.nesting
    st2 ← report_all filename blocks (record st1 { nesting = n })
    st3 ← report_all filename (check_for_namespace_indentation n clean line) st2
    (if in_asm_block n.state.stack then some st3 else check_line line st3)

  -- The loop over the lines from number `line` on
  unfoldable pub process_lines : ℕ → ℕ → Linting → Option Linting
  process_lines zero line st = some st
  process_lines (suc left) line st = do
    st1 ← process_line line st
    st2 ← report_all filename (flag_cxx11_features (get_or clean.elided line []) line) st1
    process_lines left (suc line) st2

abbrev pub with_markers : List Text → List Text
with_markers lines =
    codes "// marker so line numbers and indices both start at 1" ∷ lines
    ++ codes "// marker so line numbers end in a known way" ∷ []

-- CheckForHeaderGuard, which asks for the name of the guard unless the lines have a NOLINT for it or a
-- `#pragma once`
unfoldable pub check_guard : Checks → Text → List Text → Linting → Option Linting
unfolding check_for_header_guard
check_guard checks filename lines st = do
  cppvar ←
      (if any (contains nolint_guard_pattern) lines || any (contains pragma_pattern) lines
        then some []
        else checks.guard_variable filename)
  run_actions filename (check_for_header_guard cppvar lines) st

-- The call of CheckHeaderFileIncluded
unfoldable pub check_header_included : Checks → Text → Linting → Option Linting
check_header_included checks filename st = do
  reports ← checks.header_included st.include_state
  report_all filename reports st

-- ProcessFileData, from the module-wide state
unfoldable pub process_file_data :
    Checks → Options → Text → Text → List Text → Suppressions → LintState → Console → Option Linting
process_file_data checks o filename file_extension data_lines sup lint console = do
  let lines = with_markers data_lines
  let st : Linting = record {
    include_state = init_include_state;
    function_state = init_function_state;
    nesting = init_nesting;
    suppressions = reset_nolint_suppressions sup;
    lint = lint;
    console = console;
  }
  st1 ← report_all filename (check_for_copyright lines) st
  let st2 = record st1 { suppressions = process_global_suppressions lines st1.suppressions }
  let (bare, unclosed) = remove_multi_line_comments lines
  st3 ← report_all filename unclosed st2
  let clean = cleansed_lines bare
  st4 ←
      (if is_header_extension file_extension o
        then check_guard checks filename clean.lines_without_raw_strings st3
        else some st3)
  st5 ← process_lines checks o filename file_extension clean clean.num_lines 0 st4
  st6 ← report_all filename (check_completed_blocks st5.nesting.state.stack) st5
  what_you_use ← checks.what_you_use clean st6.include_state
  st7 ← report_all filename what_you_use st6
  st8 ←
      (if is_source_extension file_extension o
        then check_header_included checks filename st7
        else some st7)
  st9 ← report_all filename (check_for_bad_characters bare) st8
  report_all filename (check_for_newline_at_eof bare) st9
