-- ===== src/Tests/Reports.antt =====
-- Suppress.antt and Lint.antt on concrete comments, filters and errors.
use myframe.Common.{ℕ, ◌+◌, ◌≡◌, ◌⊎◌, refl, true, false, ◌||◌, none, some, List, [], ◌∷◌}
use myframe.Text.{Text, codes, has_char, starts_with}
use myframe.Regex.{search_pattern}
use myframe.Categories.{Diagnostic}
use myframe.Suppress.{
  Suppressions, parse_nolint_suppressions, nolint_pattern, is_error_suppressed_by_nolint,
  process_global_suppressions, apply_nolint,
}
use myframe.Suppress.Exact.{
  suppressed_by, named_by, parse_nolint_lem, parse_nolint_report, process_global_suppressions_lem,
}
use myframe.Lint.{
  LintState, Console, Failure, toplevel, init_lint_state, set_filters, add_filters,
  should_print_error, filtered_from, reset_error_counts, increment_error_count,
}
use myframe.Lint.Filters.{HasSigns, should_print_error-last_filter}
use myframe.Lint.Counts.{
  sum_counts, count_of, occurrences, count_all, count_all_lem, sum_counts-count_all,
}
use myframe.Lint.Junit.{group_failures, group_failures_lem, IsDistinct, group_of_file, failures_of}
use myframe.Lint.Report.{report_error}
use myframe.Lint.Report.Once.{outputs, report_error_lem}

abbrev clear : Suppressions
clear = record { by_line = []; everywhere = [] }

-- `x;  // NOLINT(runtime/int)` on line 8
nolint_parsed :
    parse_nolint_suppressions (codes "x;  // NOLINT(runtime/int)") 8 clear
    ≡ (record { by_line = (some (codes "runtime/int"), 8 ∷ []) ∷ []; everywhere = [] }, [])
unfolding parse_nolint_suppressions nolint_pattern search_pattern myframe.Suppress.apply_nolint
    myframe.Suppress.apply_category myframe.Suppress.suppress_category myframe.Suppress.add_line
    myframe.Text.text_eq myframe.Text.is_one_of myframe.Text.has_char
    myframe.Categories.error_categories
nolint_parsed = refl

nextline_parsed :
    (parse_nolint_suppressions (codes "// NOLINTNEXTLINE") 8 clear).0
    ≡ record { by_line = (none, 9 ∷ []) ∷ []; everywhere = [] }
unfolding parse_nolint_suppressions nolint_pattern search_pattern myframe.Suppress.apply_nolint
    myframe.Suppress.apply_category myframe.Suppress.add_line myframe.Text.has_char
nextline_parsed = refl

parse_nolint_lem_example :
    is_error_suppressed_by_nolint
      (codes "runtime/int")
      8
      (parse_nolint_suppressions (codes "// NOLINT(runtime/int)") 8 clear).0
    ≡ (is_error_suppressed_by_nolint (codes "runtime/int") 8 clear
        || suppressed_by
            (search_pattern nolint_pattern (codes "// NOLINT(runtime/int)"))
            8
            (codes "runtime/int")
            8)
parse_nolint_lem_example =
    parse_nolint_lem (codes "// NOLINT(runtime/int)") 8 clear (codes "runtime/int") 8

parse_nolint_report_example :
    ((parse_nolint_suppressions (codes "// NOLINT(no/such)") 8 clear).1 ≡ [])
    ⊎ ((parse_nolint_suppressions (codes "// NOLINT(no/such)") 8 clear).0 ≡ clear)
parse_nolint_report_example = parse_nolint_report (codes "// NOLINT(no/such)") 8 clear

process_global_suppressions_lem_example :
    is_error_suppressed_by_nolint
      (codes "whitespace/tab")
      8
      (process_global_suppressions (codes "// LINT_KERNEL_FILE" ∷ []) clear)
    ≡ (is_error_suppressed_by_nolint (codes "whitespace/tab") 8 clear
        || named_by (codes "// LINT_KERNEL_FILE" ∷ []) (codes "whitespace/tab"))
process_global_suppressions_lem_example =
    process_global_suppressions_lem (codes "// LINT_KERNEL_FILE" ∷ []) (codes "whitespace/tab") 8
      clear

-- --filter=-whitespace,+whitespace/tab
abbrev filtered : LintState
filtered = record init_lint_state {
  filters = codes "-whitespace" ∷ codes "+whitespace/tab" ∷ [];
  filters_backup = [];
}

filters_set :
    (set_filters (codes "-whitespace, +whitespace/tab,") init_lint_state).0.filters
    ≡ codes "-build/include_alpha" ∷ codes "-whitespace" ∷ codes "+whitespace/tab" ∷ []
unfolding set_filters add_filters init_lint_state myframe.Lint.clean_filters myframe.Text.strip
    myframe.Text.split myframe.Text.text_eq myframe.Categories.default_filters
filters_set = refl

filter_refused : (add_filters (codes "whitespace") init_lint_state).1 ≡ some (codes "whitespace")
unfolding add_filters init_lint_state myframe.Lint.clean_filters myframe.Lint.first_unsigned
    myframe.Text.strip myframe.Text.split myframe.Text.text_eq myframe.Text.starts_with
    myframe.Categories.default_filters
filter_refused = refl

filtered-HasSigns : HasSigns filtered
unfolding starts_with
filtered-HasSigns = record { in_use = (refl, (refl, tt)); saved = tt }

should_print_error-last_filter_example :
    should_print_error (codes "whitespace/tab") 1 8 clear filtered ≡ some true
unfolding starts_with is_error_suppressed_by_nolint myframe.Suppress.suppressed_at
    myframe.Text.is_one_of init_lint_state
should_print_error-last_filter_example =
    should_print_error-last_filter (codes "whitespace/tab") 1 8 clear filtered
      (codes "-whitespace" ∷ []) (codes "+whitespace/tab") [] refl filtered-HasSigns refl tt

abbrev by_top : LintState
by_top = record filtered { counting = toplevel }

abbrev some_errors : List Text
some_errors = codes "runtime/int" ∷ codes "runtime/init" ∷ codes "build/class" ∷ []

counted :
    (count_all some_errors (reset_error_counts by_top)).errors_by_category
    ≡ (codes "runtime", 2) ∷ (codes "build", 1) ∷ []
unfolding increment_error_count reset_error_counts myframe.Lint.count_key myframe.Lint.bump
    myframe.Text.split myframe.Text.text_eq
counted = refl

count_all_lem_example :
    ((count_all some_errors by_top).error_count ≡ by_top.error_count + 3)
    × (count_of (codes "runtime") (count_all some_errors by_top).errors_by_category
        ≡ count_of (codes "runtime") by_top.errors_by_category
          + occurrences toplevel (codes "runtime") some_errors)
count_all_lem_example = count_all_lem some_errors (codes "runtime") by_top

sum_counts-count_all_example :
    sum_counts (count_all some_errors (reset_error_counts by_top)).errors_by_category
    ≡ (count_all some_errors (reset_error_counts by_top)).error_count
sum_counts-count_all_example = sum_counts-count_all some_errors by_top (λ e. cc)

abbrev failure : Text → ℕ → Failure
failure file n = record {
  filename = file;
  line = n;
  message = codes "m";
  category = codes "c";
  confidence = 1;
}

abbrev failures : List Failure
failures = failure (codes "a.cc") 1 ∷ failure (codes "b.cc") 2 ∷ failure (codes "a.cc") 3 ∷ []

grouped :
    group_failures failures
    ≡ (codes "a.cc", failure (codes "a.cc") 1 ∷ failure (codes "a.cc") 3 ∷ [])
      ∷ (codes "b.cc", failure (codes "b.cc") 2 ∷ [])
      ∷ []
unfolding group_failures myframe.Lint.Junit.add_failure myframe.Text.text_eq
grouped = refl

group_failures_lem_example :
    IsDistinct (group_failures failures)
    × ((file : Text) → group_of_file file (group_failures failures) ≡ failures_of file failures)
group_failures_lem_example = group_failures_lem failures

abbrev problem : Diagnostic
problem = record {
  line = 8;
  category = codes "runtime/int";
  confidence = 4;
  message = codes "Use int16";
}

abbrev console : Console
console = record { stdout = []; stderr = [] }

report_printed :
    report_error (codes "a.cc") clear problem (filtered, console)
    ≡ some (
      record filtered { error_count = 1 },
      record { stdout = []; stderr = codes "a.cc:8:  Use int16  [runtime/int] [4]\n" ∷ [] },
    )
unfolding report_error should_print_error filtered_from starts_with is_error_suppressed_by_nolint
    myframe.Suppress.suppressed_at myframe.Text.is_one_of myframe.Lint.Report.report_as
    myframe.Lint.Report.emacs_line myframe.Lint.Report.tags myframe.Text.decimal
    increment_error_count myframe.Lint.count_key init_lint_state
report_printed = refl

report_error_lem_example :
    (w : LintState × Console) × (report_error (codes "a.cc") clear problem (filtered, console)
      ≡ some w)
    × (((should_print_error (codes "runtime/int") 4 8 clear filtered ≡ some false)
          × (w ≡ (filtered, console)))
        ⊎ ((should_print_error (codes "runtime/int") 4 8 clear filtered ≡ some true)
            × (outputs w ≡ outputs (filtered, console) + 1)
            × (w.0.error_count ≡ filtered.error_count + 1)
            × (w.0.filters ≡ filtered.filters)
            × (w.0.verbose_level ≡ filtered.verbose_level)))
report_error_lem_example =
    report_error_lem (codes "a.cc") clear problem filtered console filtered-HasSigns
