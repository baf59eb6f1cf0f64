-- ===== src/Driver/Silenced.antt =====
-- What a NOLINT comment does to the reports of the checks of cpplint.py.
use myframe.Common.{
  ℕ, ◌≡◌, refl, sym, ap, ◌∙◌, false, arith, some_inj, >>=-eq-some, Bool, true, some, List, [], ◌∷◌,
  All, ◌||◌,
}
use mathlib.Core.Path.{subst}
use myframe.Regex.{search_pattern}
use myframe.Text.{Text}
use myframe.Categories.{Diagnostic}
use myframe.Suppress.{
  Suppressions, nolint_pattern, is_error_suppressed_by_nolint, parse_nolint_suppressions,
}
use myframe.Suppress.Exact.{suppressed_by, parse_nolint_lem}
use myframe.Lint.{LintState, Console, should_print_error}
use myframe.Lint.Report.{report_error}
use myframe.Driver.{Linting, report_all, parse_nolint_in}

or-true : (a b : Bool) → b ≡ true → (a || b) ≡ true
or-true a b h = ground arith

should_print_error-suppressed :
    (d : Diagnostic) (sup : Suppressions) (s : LintState)
    → is_error_suppressed_by_nolint d.category d.line sup ≡ true
    → should_print_error d.category d.confidence d.line sup s ≡ some false
unfolding should_print_error
should_print_error-suppressed d sup s h = rw (h, should_print_error) refl

report_error-suppressed :
    (filename : Text) (d : Diagnostic) (sup : Suppressions) (s : LintState) (io : Console)
    → is_error_suppressed_by_nolint d.category d.line sup ≡ true
    → report_error filename sup d (s, io) ≡ some (s, io)
unfolding report_error
report_error-suppressed filename d sup s io h =
    rw (should_print_error-suppressed d sup s h, report_error) refl

-- The report is of an error that is suppressed.
abbrev pub IsSuppressed : Suppressions → Diagnostic → Type 0
IsSuppressed sup d = is_error_suppressed_by_nolint d.category d.line sup ≡ true

report_all-suppressed :
    (filename : Text) (ds : List Diagnostic) (st : Linting)
    → All (IsSuppressed st.suppressions) ds
    → report_all filename ds st ≡ some st
unfolding report_all
report_all-suppressed filename [] st h = refl
report_all-suppressed filename (d ∷ ds) st (first, rest) =
    rw (report_error-suppressed filename d st.suppressions st.lint st.console first)
      (report_all-suppressed filename ds st rest)

-- Reports change no suppression.
report_all-suppressions :
    (filename : Text) (ds : List Diagnostic) (st st' : Linting)
    → report_all filename ds st ≡ some st'
    → st'.suppressions ≡ st.suppressions
unfolding report_all
report_all-suppressions filename [] st st' h =
    ap (λ (s : Linting). s.suppressions) (sym (some_inj st st' h))
report_all-suppressions filename (d ∷ ds) st st' h =
    let ((lint, console), _, later) =
      >>=-eq-some (report_error filename st.suppressions d (st.lint, st.console)) _ h in
    report_all-suppressions filename ds (record st { lint = lint; console = console }) st' later

-- The comment on line `line` of the text `raw_line` names the report.
abbrev pub IsNamed : Text → ℕ → Diagnostic → Type 0
IsNamed raw_line line d =
    suppressed_by (search_pattern nolint_pattern raw_line) line d.category d.line ≡ true

IsNamed-IsSuppressed :
    (raw_line : Text) (line : ℕ) (sup : Suppressions) (ds : List Diagnostic)
    → All (IsNamed raw_line line) ds
    → All (IsSuppressed (parse_nolint_suppressions raw_line line sup).0) ds
IsNamed-IsSuppressed raw_line line sup [] h = tt
IsNamed-IsSuppressed raw_line line sup (d ∷ ds) (named, rest) = (
  parse_nolint_lem raw_line line sup d.category d.line ∙ or-true _ _ named,
  IsNamed-IsSuppressed raw_line line sup ds rest,
)

-- When the NOLINT comment of a line has been read, reports that it names leave the state as it is: none
-- of them is put out, and none is counted.
pub report_all-parse_nolint_in :
    (filename raw_line : Text) (line : ℕ) (ds : List Diagnostic) (st st' : Linting)
    → parse_nolint_in filename raw_line line st ≡ some st'
    → All (IsNamed raw_line line) ds
    → report_all filename ds st' ≡ some st'
unfolding parse_nolint_in
report_all-parse_nolint_in filename raw_line line ds st st' h named =
    let (sup, reports) = parse_nolint_suppressions raw_line line st.suppressions in
    let same = report_all-suppressions filename reports (record st { suppressions = sup }) st' h in
    report_all-suppressed filename ds st' (
      subst (λ s. All (IsSuppressed s) ds) (sym same)
        (IsNamed-IsSuppressed raw_line line st.suppressions ds named))
