-- ===== src/Tests/Driver.antt =====
-- Arguments.antt and Driver.antt on concrete runs.
use myframe.Common.{◌≡◌, refl, true, false, Option, none, some, List, [], ◌∷◌, ◌++◌, All}
use myframe.Common.Int.{pos}
use myframe.Text.{Text, codes, text_eq}
use myframe.Lint.{init_lint_state}
use myframe.Options.{Options, init_options}
use myframe.Config.{Host, World}
use myframe.Arguments.{Shell, parse_arguments}
use myframe.Arguments.Below.{JoinsPaths, IsAt}
use myframe.Arguments.Excludes.{IsSorted, parse_arguments-files}
use myframe.Driver.{Linting, report_all, parse_nolint_in, process_file_data}
use myframe.Driver.Silenced.{report_all-parse_nolint_in}
use myframe.Includes.{init_include_state}
use myframe.Functions.{init_function_state}
use myframe.Nesting.Update.{init_nesting}
use myframe.Suppress.{parse_nolint_suppressions}
use myframe.Categories.{Diagnostic}
use myframe.Blocks.{report}
use myframe.Driver.{Checks}
use myframe.Driver.File.{Input, Program, Ended, returned, process_file, cr_error}
use myframe.Driver.Restored.{process_file-filters}
use myframe.Tests.Paths.Posix.{posix, posix-common}

abbrev host : Host
host = record {
  os = posix;
  is_file = λ p. text_eq p (codes "/r/CPPLINT.cfg");
  read_file = λ p. some (codes "filter=-legal" ∷ []);
  pattern_match = λ pattern name. some (text_eq pattern name);
  int = λ t. some (pos 100);
}

abbrev shell : Shell
shell = record {
  host = host;
  getopt = λ args. some (
    (codes "--exclude", codes "/r/x") ∷ (codes "--recursive", []) ∷ (codes "--quiet", []) ∷ [],
    args,
  );
  verbosity_of = λ t. none;
  glob = λ p. p ∷ [];
  is_dir = λ p. text_eq p (codes "/r");
  walk = λ p.
      (codes "/r", codes "b.cc" ∷ codes "a.h" ∷ codes "README" ∷ [])
      ∷ (codes "/r/x", codes "c.cc" ∷ [])
      ∷ [];
  sep = b'/';
}

abbrev world : World
world = record {
  options = init_options;
  lint = init_lint_state;
  console = record { stdout = []; stderr = [] };
}

abbrev parsed : World
parsed = record world {
  options = record init_options { excludes = codes "/r/x" ∷ [] };
  lint = record init_lint_state { quiet = true };
}

shell-JoinsPaths : JoinsPaths shell
shell-JoinsPaths = record { prefix_of = posix-common; joined = λ p r full plain single. refl }

parse_arguments-files_example :
    IsSorted (codes "/r/a.h" ∷ codes "/r/b.cc" ∷ [])
    × All
        (λ f. All (λ e. ¬ IsAt shell e f) parsed.options.excludes)
        (codes "/r/a.h" ∷ codes "/r/b.cc" ∷ [])
unfolding parse_arguments myframe.Lint.add_filters myframe.Lint.first_unsigned
    myframe.Categories.default_filters myframe.Lint.clean_filters myframe.Text.split
    myframe.Text.strip init_lint_state
parse_arguments-files_example =
    parse_arguments-files shell (codes "/r" ∷ []) world parsed
      (codes "/r/a.h" ∷ codes "/r/b.cc" ∷ []) shell-JoinsPaths refl

abbrev checks : Checks
checks = record {
  guard_variable = λ f. some f;
  unicode = record { normalize = λ t. t; is_wide = λ c. false; is_combining = λ c. false };
  language = λ ext clean line n i. some (i, []);
  behind_language = λ clean line n. some [];
  extra = λ clean line. some [];
  what_you_use = λ clean i. some [];
  header_included = λ i. some [];
}

-- A file with both ends of lines
abbrev input : Input
input = record {
  stdin = [];
  read_text = λ f. some (codes "int a;" ++ 13 ∷ 10 ∷ codes "int b;" ++ 10 ∷ []);
}

abbrev initial : Program
initial = record { world = world; suppressions = record { by_line = []; everywhere = [] } }

abbrev program_of : Option Ended → Program
program_of (some (returned p)) = p
program_of _ = initial

backslash :
    (cr_error 1).message
    ≡ codes "Unexpected " ++ 92 ∷ codes "r (^M) found; better to use only " ++ 92 ∷ codes "n"
backslash = refl

process_file-filters_example :
    (program_of (process_file checks input host (codes "/r/a.cc") 1 initial)).world.lint.filters
    ≡ init_lint_state.filters
unfolding process_file myframe.Config.process_config_overrides myframe.Text.has_char
    myframe.Lint.first_unsigned myframe.Lint.backup_filters myframe.Lint.set_verbose_level
    init_lint_state myframe.Categories.default_filters myframe.Text.starts_with
    myframe.Lint.clean_filters myframe.Text.split myframe.Driver.File.lint_file
    myframe.Driver.File.check_file myframe.Text.is_one_of myframe.Options.get_all_extensions
    myframe.Driver.process_file_data myframe.Driver.report_all myframe.Driver.process_lines
    myframe.Driver.process_line myframe.Driver.check_line myframe.Driver.parse_nolint_in
    myframe.Driver.run_actions myframe.Driver.check_guard myframe.Driver.check_header_included
    myframe.Style.check_style myframe.Regex.search_pattern myframe.Regex.match_pattern
    myframe.Regex.replace_all myframe.Suppress.process_global_suppressions
    myframe.Suppress.parse_nolint_suppressions myframe.Suppress.reset_nolint_suppressions
    myframe.Suppress.is_error_suppressed_by_nolint myframe.Suppress.suppressed_at
    myframe.FileChecks.check_for_copyright myframe.FileChecks.check_for_bad_characters
    myframe.FileChecks.check_for_newline_at_eof myframe.FileChecks.check_invalid_increment
    myframe.FileChecks.check_for_multiline_comments_and_strings
    myframe.Cleanse.Comments.remove_multi_line_comments myframe.Cleanse.Lines.cleansed_lines
    myframe.Functions.check_for_function_lengths myframe.Functions.init_function_state
    myframe.Includes.init_include_state myframe.Nesting.Update.init_nesting
    myframe.Nesting.Update.update myframe.Nesting.Update.check_completed_blocks
    myframe.Nesting.Update.check_for_namespace_indentation myframe.Nesting.Stack.in_asm_block
    myframe.Driver.Cxx11.flag_cxx11_features myframe.Driver.File.strip_lines
    myframe.Lint.should_print_error myframe.Lint.filtered_from
    myframe.Cleanse.Comments.begins_comment myframe.Options.is_header_extension
    myframe.Suppress.nolint_pattern myframe.Cleanse.Lines.is_cpp_string
    myframe.Functions.is_starting_func myframe.Functions.declaration_pattern
    myframe.Functions.closing_pattern myframe.Functions.blank_pattern
    myframe.Options.is_source_extension myframe.Suppress.global_suppressions_of_line
    myframe.Suppress.kernel_file_pattern myframe.Suppress.c_file_pattern
    myframe.LineChecks.check_vlog_arguments myframe.LineChecks.check_posix_threading
    myframe.LineChecks.check_make_pair_uses_deduction
    myframe.LineChecks.Virtual.check_redundant_virtual
    myframe.LineChecks.check_redundant_override_or_final
    myframe.Style.Sections.get_previous_non_blank_line
process_file-filters_example =
    process_file-filters checks input host (codes "/r/a.cc") 1 initial
      (program_of (process_file checks input host (codes "/r/a.cc") 1 initial)) refl

abbrev state : Linting
state = record {
  include_state = init_include_state;
  function_state = init_function_state;
  nesting = init_nesting;
  suppressions = record { by_line = []; everywhere = [] };
  lint = init_lint_state;
  console = world.console;
}

abbrev silenced_line : Text
silenced_line = codes "f( a);  // NOLINT"

abbrev silenced : Linting
silenced = record state {
  suppressions = (parse_nolint_suppressions silenced_line 3 state.suppressions).0;
}

abbrev extra_space : Diagnostic
extra_space = report 3 (codes "whitespace/parens") 4 (codes "Extra space after ( in function call")

report_all-parse_nolint_in_example :
    report_all (codes "a.cc") (extra_space ∷ []) silenced ≡ some silenced
unfolding parse_nolint_in parse_nolint_suppressions report_all myframe.Regex.search_pattern
    myframe.Suppress.nolint_pattern myframe.Suppress.apply_nolint myframe.Suppress.apply_category
report_all-parse_nolint_in_example =
    report_all-parse_nolint_in (codes "a.cc") silenced_line 3 (extra_space ∷ []) state silenced refl
      (refl, tt)

abbrev source_lines : List Text
source_lines = codes "// Copyright" ∷ codes "int a;  // NOLINT" ∷ codes "int b ;" ∷ []
