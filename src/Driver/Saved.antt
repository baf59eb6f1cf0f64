-- ===== src/Driver/Saved.antt =====
-- ProcessFileData of cpplint.py: the filters that ProcessFile has saved, while a file is checked.
use myframe.Common.{◌≡◌, ◌∙◌, Bool, true, false, Option, none, some, List}
use myframe.Text.{Text}
use myframe.Categories.{Diagnostic}
use myframe.Suppress.{Suppressions}
use myframe.Lint.{LintState, Console, should_print_error, increment_error_count}
use myframe.Lint.Report.{report_as, report_error}
use myframe.Lint.Report.Once.{report_as-OneMore}
use myframe.Options.{Options}
use myframe.Driver.{Checks, Linting, report_all, process_file_data}
use myframe.Driver.Holds.{Ends, AllEnd, After, Holds, report_all-Holds, process_file_data-Holds}

-- The saved filters are these.
abbrev pub IsBackup : List Text → LintState → Type 0
IsBackup b s = s.filters_backup ≡ b

-- The saved filters are these, if there is a result.
abbrev pub Saved : List Text → Option Linting → Type 0
Saved b = Holds (Unit {0}) (IsBackup b)

any-Ends {ℓ} : {A : Type ℓ} (m : Option A) → Ends (Unit {0}) m
any-Ends none = tt
any-Ends (some a) = tt

any-AllEnd : (checks : Checks) → AllEnd (Unit {0}) checks
any-AllEnd checks = record {
  guard_variable = λ f. any-Ends _;
  language = λ ext clean line n i. any-Ends _;
  behind_language = λ clean line n. any-Ends _;
  extra = λ clean line. any-Ends _;
  what_you_use = λ clean i. any-Ends _;
  header_included = λ i. any-Ends _;
}

module _ (b : List Text) where
  report_error-IsBackup :
      (filename : Text) (sup : Suppressions) (d : Diagnostic) (s : LintState) (io : Console)
      → IsBackup b s
      → After (Unit {0}) (IsBackup b) (report_error filename sup d (s, io))
  unfolding report_error increment_error_count
  report_error-IsBackup filename sup d s io h =
      by_answer (should_print_error d.category d.confidence d.line sup s)
    where
      counted : LintState
      counted = increment_error_count d.category s

      by_answer :
          (o : Option Bool)
          → After (Unit {0}) (IsBackup b) (elim o as (λ _. Option (LintState × Console)) [
            | none ↦ none
            | some false ↦ some (s, io)
            | some true ↦ some (report_as s.output_format filename d (counted, io))
          ])
      by_answer none = tt
      by_answer (some false) = h
      by_answer (some true) = (report_as-OneMore s.output_format filename d counted io).4 ∙ h

  pub report_all-Saved :
      (filename : Text) (ds : List Diagnostic) (st : Linting)
      → st.lint.filters_backup ≡ b
      → Saved b (report_all filename ds st)
  report_all-Saved = report_all-Holds (Unit {0}) (IsBackup b) report_error-IsBackup

  pub process_file_data-Saved :
      (checks : Checks) (o : Options) (filename file_extension : Text) (lines : List Text)
      (sup : Suppressions) (lint : LintState) (console : Console)
      → lint.filters_backup ≡ b
      → Saved b (process_file_data checks o filename file_extension lines sup lint console)
  process_file_data-Saved checks o filename file_extension lines sup lint console h =
      process_file_data-Holds (Unit {0}) (IsBackup b) report_error-IsBackup checks o filename
        file_extension lines sup lint console (any-AllEnd checks) h
