-- ===== src/Lint.antt =====
-- class _CppLintState of cpplint.py, the module-wide state, with _ShouldPrintError. What goes to stdout
-- and stderr is collected in a console.
pub mod Filters
pub mod Counts
pub mod Junit
pub mod Report
use myframe.Common.{
  ℕ, ◌+◌, Bool, true, false, not, ◌&&◌, ◌||◌, Option, none, some, List, [], ◌∷◌, ◌++◌, ltb,
  if◌then◌else◌, drop,
}
use myframe.Text.{Text, codes, text_eq, text_lt, starts_with, split, strip, decimal}
use myframe.Text.Laws.{first_part}
use myframe.Categories.{default_filters}
use myframe.Suppress.{Suppressions, is_error_suppressed_by_nolint}

-- The values of `counting` and `output_format` that ParseArguments lets through
pub data Counting : Type 0 where
  total toplevel detailed : Counting

pub data OutputFormat : Type 0 where
  emacs eclipse vs7 junit sed gsed : OutputFormat

-- The tuples that AddJUnitFailure appends
pub record Failure : Type 0 where
  pub filename : Text
  pub line : ℕ
  pub message : Text
  pub category : Text
  pub confidence : ℕ

pub record LintState : Type 0 where
  pub verbose_level : ℕ
  pub error_count : ℕ
  pub filters : List Text
  pub filters_backup : List Text
  pub counting : Counting
  pub errors_by_category : List (Text × ℕ)
  pub quiet : Bool
  pub output_format : OutputFormat
  pub junit_errors : List Text
  pub junit_failures : List Failure

-- What was written, the earliest first
pub record Console : Type 0 where
  pub stdout : List Text
  pub stderr : List Text

-- __init__
unfoldable pub init_lint_state : LintState
init_lint_state = record {
  verbose_level = 1;
  error_count = 0;
  filters = default_filters;
  filters_backup = default_filters;
  counting = total;
  errors_by_category = [];
  quiet = false;
  output_format = emacs;
  junit_errors = [];
  junit_failures = [];
}

-- SetOutputFormat, SetQuiet, SetVerboseLevel, SetCountingStyle: two return the previous setting.
unfoldable pub set_output_format : OutputFormat → LintState → LintState
set_output_format f s = record s { output_format = f }

unfoldable pub set_quiet : Bool → LintState → LintState × Bool
set_quiet q s = (record s { quiet = q }, s.quiet)

unfoldable pub set_verbose_level : ℕ → LintState → LintState × ℕ
set_verbose_level level s = (record s { verbose_level = level }, s.verbose_level)

unfoldable pub set_counting_style : Counting → LintState → LintState
set_counting_style c s = record s { counting = c }

-- The stripped parts that are not empty, in order
unfoldable pub clean_filters : List Text → List Text
clean_filters [] = []
clean_filters (f ∷ fs) =
    if text_eq (strip f) [] then clean_filters fs else strip f ∷ clean_filters fs

abbrev pub is_signed : Text → Bool
is_signed f = starts_with f (codes "+") || starts_with f (codes "-")

-- The first filter without a sign, which the ValueError names
unfoldable pub first_unsigned : List Text → Option Text
first_unsigned [] = none
first_unsigned (f ∷ fs) = if is_signed f then first_unsigned fs else some f

-- AddFilters(filters): the filters stay appended when it raises.
unfoldable pub add_filters : Text → LintState → LintState × Option Text
add_filters filters s =
    let all = s.filters ++ clean_filters (split b',' filters) in
    (record s { filters = all }, first_unsigned all)

-- SetFilters(filters)
unfoldable pub set_filters : Text → LintState → LintState × Option Text
set_filters filters s = add_filters filters (record s { filters = default_filters })

-- BackupFilters, RestoreFilters
unfoldable pub backup_filters : LintState → LintState
backup_filters s = record s { filters_backup = s.filters }

unfoldable pub restore_filters : LintState → LintState
restore_filters s = record s { filters = s.filters_backup }

-- ResetErrorCounts
unfoldable pub reset_error_counts : LintState → LintState
reset_error_counts s = record s { error_count = 0; errors_by_category = [] }

-- d[key] += 1, from 0 for a new key
unfoldable pub bump : Text → List (Text × ℕ) → List (Text × ℕ)
bump key [] = (key, 1) ∷ []
bump key ((k, n) ∷ d) = if text_eq k key then (k, n + 1) ∷ d else (k, n) ∷ bump key d

-- The key under which an error is counted, if it is counted by category at all
unfoldable pub count_key : Counting → Text → Option Text
count_key total category = none
count_key toplevel category = some (first_part (split b'/' category))
count_key detailed category = some category

abbrev bump_key : Option Text → List (Text × ℕ) → List (Text × ℕ)
bump_key none d = d
bump_key (some key) d = bump key d

-- IncrementErrorCount(category)
unfoldable pub increment_error_count : Text → LintState → LintState
increment_error_count category s = record s {
  error_count = s.error_count + 1;
  errors_by_category = bump_key (count_key s.counting category) s.errors_by_category;
}

-- _MACHINE_OUTPUTS
unfoldable pub is_machine_output : OutputFormat → Bool
is_machine_output junit = true
is_machine_output sed = true
is_machine_output gsed = true
is_machine_output _ = false

-- PrintInfo(message), where `hidden` is the global `_quiet`
unfoldable pub print_info : Bool → Text → LintState → Console → Console
print_info hidden message s io =
    if not hidden && not (is_machine_output s.output_format)
    then record io { stdout = io.stdout ++ message ∷ [] }
    else io

abbrev pub write_err : Text → Console → Console
write_err t io = record io { stderr = io.stderr ++ t ∷ [] }

abbrev pub write_out : Text → Console → Console
write_out t io = record io { stdout = io.stdout ++ t ∷ [] }

unfoldable pub print_error_as : OutputFormat → Text → LintState × Console → LintState × Console
print_error_as junit message (s, io) =
    (record s { junit_errors = s.junit_errors ++ message ∷ [] }, io)
print_error_as _ message (s, io) = (s, write_err message io)

-- PrintError(message)
unfoldable pub print_error : Text → LintState × Console → LintState × Console
unfolding print_error_as
print_error message (s, io) = print_error_as s.output_format message (s, io)

-- AddJUnitFailure(filename, linenum, message, category, confidence)
unfoldable pub add_junit_failure : Failure → LintState → LintState
add_junit_failure f s = record s { junit_failures = s.junit_failures ++ f ∷ [] }

-- sorted(iteritems(errors_by_category)): the keys are distinct, so they decide
insert_sorted : Text × ℕ → List (Text × ℕ) → List (Text × ℕ)
insert_sorted e [] = e ∷ []
insert_sorted e (f ∷ fs) = if text_lt f.0 e.0 then f ∷ insert_sorted e fs else e ∷ f ∷ fs

unfoldable pub sort_counts : List (Text × ℕ) → List (Text × ℕ)
unfolding insert_sorted
sort_counts [] = []
sort_counts (e ∷ es) = insert_sorted e (sort_counts es)

print_counts : Bool → List (Text × ℕ) → LintState → Console → Console
print_counts hidden [] s io = io
print_counts hidden ((category, n) ∷ rest) s io = print_counts hidden rest s (
    print_info hidden
      (codes "Category '" ++ (category ++ (codes "' errors found: " ++ (decimal n ++ 10 ∷ [])))) s
      io)

-- PrintErrorCounts()
unfoldable pub print_error_counts : Bool → LintState → Console → Console
unfolding print_counts
print_error_counts hidden s io =
    let io' = print_counts hidden (sort_counts s.errors_by_category) s io in
    if ltb 0 s.error_count
    then print_info hidden (codes "Total errors found: " ++ (decimal s.error_count ++ 10 ∷ [])) s
        io'
    else io'

-- The loop of _ShouldPrintError over the filters, with `is_filtered` so far; `none` is the failed
-- assertion on a filter without a sign.
unfoldable pub filtered_from : Text → Bool → List Text → Option Bool
filtered_from category is_filtered [] = some is_filtered
filtered_from category is_filtered (f ∷ fs) =
    let minus = filtered_from category (starts_with category (drop 1 f) || is_filtered) fs in
    let plus = filtered_from category (not (starts_with category (drop 1 f)) && is_filtered) fs in
    if starts_with f (codes "-") then minus else if starts_with f (codes "+") then plus else none

-- _ShouldPrintError(category, confidence, linenum)
unfoldable pub should_print_error : Text → ℕ → ℕ → Suppressions → LintState → Option Bool
should_print_error category confidence line sup s =
    if is_error_suppressed_by_nolint category line sup
    then some false
    else if ltb confidence s.verbose_level
    then some false
    else elim (filtered_from category false s.filters) [ none ↦ none | some b ↦ some (not b) ]
