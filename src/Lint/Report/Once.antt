-- ===== src/Lint/Report/Once.antt =====
-- Error and the counts of what was put out: stdout, stderr and the lists for JUnit.
use myframe.Common.{
  ℕ, ◌+◌, ◌≡◌, ◌≢◌, ◌⊎◌, refl, inl, inr, Bool, true, false, Option, none, some, [], ◌∷◌, length,
  length-append, arith,
}
use myframe.Text.{Text, codes}
use myframe.Categories.{Diagnostic}
use myframe.Suppress.{Suppressions}
use myframe.Lint.{
  LintState, Console, OutputFormat, emacs, eclipse, vs7, junit, sed, gsed, write_err, write_out,
  print_error, print_error_as, add_junit_failure, increment_error_count, should_print_error,
}
use myframe.Lint.Filters.{HasSigns, should_print_error-ne-none}
use myframe.Lint.Report.{
  report_as, report_sed, report_fix, report_error, lookup_fixup, sed_fixups, sed_line, no_fix_line,
  vs7_line, eclipse_line, emacs_line,
}

-- How many things were put out: lines on the two streams, and failures kept for JUnit.
abbrev pub outputs : LintState × Console → ℕ
outputs (s, io) =
    length io.stdout + length io.stderr + length s.junit_failures + length s.junit_errors

-- One more output, and the counts, the filters and the settings as they were.
abbrev pub OneMore : LintState × Console → LintState × Console → Type 0
OneMore w w' =
    (outputs w' ≡ outputs w + 1)
    × (w'.0.error_count ≡ w.0.error_count)
    × (w'.0.errors_by_category ≡ w.0.errors_by_category)
    × (w'.0.filters ≡ w.0.filters)
    × (w'.0.filters_backup ≡ w.0.filters_backup)
    × (w'.0.verbose_level ≡ w.0.verbose_level)
    × (w'.0.output_format ≡ w.0.output_format)
    × (w'.0.counting ≡ w.0.counting)

write_err-OneMore : (t : Text) (s : LintState) (io : Console) → OneMore (s, io) (s, write_err t io)
write_err-OneMore t s io =
    (omega (arith, length-append io.stderr (t ∷ [])), refl, refl, refl, refl, refl, refl, refl)

write_out-OneMore : (t : Text) (s : LintState) (io : Console) → OneMore (s, io) (s, write_out t io)
write_out-OneMore t s io =
    (omega (arith, length-append io.stdout (t ∷ [])), refl, refl, refl, refl, refl, refl, refl)

print_error-OneMore :
    (how : OutputFormat) (t : Text) (s : LintState) (io : Console)
    → OneMore (s, io) (print_error_as how t (s, io))
unfolding print_error_as
print_error-OneMore junit t s io =
    (omega (arith, length-append s.junit_errors (t ∷ [])), refl, refl, refl, refl, refl, refl, refl)
print_error-OneMore _ t s io = write_err-OneMore t s io

report_fix-OneMore :
    (fix : Option Text) (command filename : Text) (d : Diagnostic) (s : LintState) (io : Console)
    → OneMore (s, io) (report_fix fix command filename d (s, io))
unfolding report_fix
report_fix-OneMore none command filename d s io = write_err-OneMore (no_fix_line filename d) s io
report_fix-OneMore (some fix) command filename d s io =
    write_out-OneMore (sed_line command fix filename d) s io

report_sed-OneMore :
    (command filename : Text) (d : Diagnostic) (s : LintState) (io : Console)
    → OneMore (s, io) (report_sed command filename d (s, io))
unfolding report_sed
report_sed-OneMore command filename d s io =
    report_fix-OneMore (lookup_fixup d.message sed_fixups) command filename d s io

pub report_as-OneMore :
    (how : OutputFormat) (filename : Text) (d : Diagnostic) (s : LintState) (io : Console)
    → OneMore (s, io) (report_as how filename d (s, io))
unfolding report_as add_junit_failure print_error
report_as-OneMore vs7 filename d s io =
    print_error-OneMore s.output_format (vs7_line filename d) s io
report_as-OneMore eclipse filename d s io = write_err-OneMore (eclipse_line filename d) s io
report_as-OneMore junit filename d s io = (
  omega (
    arith,
    length-append s.junit_failures (
        record {
          filename = filename;
          line = d.line;
          message = d.message;
          category = d.category;
          confidence = d.confidence;
        }
        ∷ []),
  ),
  refl,
  refl,
  refl,
  refl,
  refl,
  refl,
  refl,
)
report_as-OneMore sed filename d s io = report_sed-OneMore (codes "sed") filename d s io
report_as-OneMore gsed filename d s io = report_sed-OneMore (codes "gsed") filename d s io
report_as-OneMore emacs filename d s io = write_err-OneMore (emacs_line filename d) s io

-- A reported error that _ShouldPrintError lets through is put out once and counted once; any other
-- leaves everything as it was. On filters with signs there is always a result.
pub report_error_lem :
    (filename : Text) (sup : Suppressions) (d : Diagnostic) (s : LintState) (io : Console)
    → HasSigns s
    → (w : LintState × Console) × (report_error filename sup d (s, io) ≡ some w)
      × (((should_print_error d.category d.confidence d.line sup s ≡ some false) × (w ≡ (s, io)))
          ⊎ ((should_print_error d.category d.confidence d.line sup s ≡ some true)
              × (outputs w ≡ outputs (s, io) + 1)
              × (w.0.error_count ≡ s.error_count + 1)
              × (w.0.filters ≡ s.filters)
              × (w.0.verbose_level ≡ s.verbose_level)))
unfolding report_error increment_error_count
report_error_lem filename sup d s io h =
    by_answer (should_print_error d.category d.confidence d.line sup s)
      (should_print_error-ne-none d.category d.confidence d.line sup s h)
  where
    after : LintState × Console
    after = report_as s.output_format filename d (increment_error_count d.category s, io)

    one : OneMore (increment_error_count d.category s, io) after
    one = report_as-OneMore s.output_format filename d (increment_error_count d.category s) io

    by_answer :
        (o : Option Bool)
        → o ≢ none
        → (w : LintState × Console) × ((elim o as (λ _. Option (LintState × Console)) [
          | none ↦ none
          | some false ↦ some (s, io)
          | some true ↦ some after
        ])
            ≡ some w)
          × (((o ≡ some false) × (w ≡ (s, io)))
              ⊎ ((o ≡ some true)
                  × (outputs w ≡ outputs (s, io) + 1)
                  × (w.0.error_count ≡ s.error_count + 1)
                  × (w.0.filters ≡ s.filters)
                  × (w.0.verbose_level ≡ s.verbose_level)))
    by_answer none ne = absurd (ne refl)
    by_answer (some false) ne = ((s, io), refl, inl (refl, refl))
    by_answer (some true) ne = (after, refl, inr (refl, one.0, one.1, one.3, one.5))
