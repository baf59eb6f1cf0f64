-- ===== src/Lint/Report.antt =====
-- Error of cpplint.py: where a reported error goes in each output format.
pub mod Once
use myframe.Common.{◌+◌, true, false, Option, none, some, List, [], ◌∷◌, ◌++◌, if◌then◌else◌}
use myframe.Text.{Text, codes, text_eq, decimal}
use myframe.Categories.{Diagnostic}
use myframe.Suppress.{Suppressions}
use myframe.Lint.{
  LintState, Console, OutputFormat, emacs, eclipse, vs7, junit, sed, gsed, write_err, write_out,
  print_error, add_junit_failure, increment_error_count, should_print_error,
}

-- _SED_FIXUPS
unfoldable pub sed_fixups : List (Text × Text)
sed_fixups =
    (codes "Remove spaces around =", codes "s/ = /=/")
    ∷ (codes "Remove spaces around !=", codes "s/ != /!=/")
    ∷ (codes "Remove space before ( in if (", codes "s/if (/if(/")
    ∷ (codes "Remove space before ( in for (", codes "s/for (/for(/")
    ∷ (codes "Remove space before ( in while (", codes "s/while (/while(/")
    ∷ (codes "Remove space before ( in switch (", codes "s/switch (/switch(/")
    ∷ (codes "Should have a space between // and comment", codes "s/\\/\\//\\/\\/ /")
    ∷ (codes "Missing space before {", codes "s/\\([^ ]\\){/\\1 {/")
    ∷ (codes "Tab found, replace by spaces", codes "s/\\t/  /g")
    ∷ (codes "Line ends in whitespace.  Consider deleting these extra spaces.", codes "s/\\s*$//")
    ∷ (codes "You don't need a ; after a }", codes "s/};/}/")
    ∷ (codes "Missing space after ,", codes "s/,\\([^ ]\\)/, \\1/g")
    ∷ []

unfoldable pub lookup_fixup : Text → List (Text × Text) → Option Text
lookup_fixup message [] = none
lookup_fixup message ((m, fix) ∷ rest) =
    if text_eq m message then some fix else lookup_fixup message rest

-- '[%s] [%d]\n', the end of most lines
unfoldable pub tags : Diagnostic → Text
tags d =
    codes "[" ++ (d.category ++ (codes "] [" ++ (decimal d.confidence ++ (codes "]" ++ 10 ∷ []))))

unfoldable pub vs7_line : Text → Diagnostic → Text
vs7_line filename d =
    filename
    ++ (codes "("
        ++ (decimal d.line
            ++ (codes "): error cpplint: ["
                ++ (d.category
                    ++ (codes "] "
                        ++ (d.message
                            ++ (codes " ["
                                ++ (decimal d.confidence ++ (codes "]" ++ 10 ∷ [])))))))))

unfoldable pub eclipse_line : Text → Diagnostic → Text
eclipse_line filename d =
    filename
    ++ (codes ":"
        ++ (decimal d.line ++ (codes ": warning: " ++ (d.message ++ (codes "  " ++ tags d)))))

unfoldable pub emacs_line : Text → Diagnostic → Text
emacs_line filename d =
    filename
    ++ (codes ":" ++ (decimal d.line ++ (codes ":  " ++ (d.message ++ (codes "  " ++ tags d)))))

-- The command for a message that sed can fix
unfoldable pub sed_line : Text → Text → Text → Diagnostic → Text
sed_line command fix filename d =
    command
    ++ (codes " -i '"
        ++ (decimal d.line
            ++ (fix
                ++ (codes "' "
                    ++ (filename ++ (codes " # " ++ (d.message ++ (codes "  " ++ tags d))))))))

unfoldable pub no_fix_line : Text → Diagnostic → Text
no_fix_line filename d =
    codes "# "
    ++ (filename
        ++ (codes ":"
            ++ (decimal d.line
                ++ (codes ":  " ++ (34 ∷ d.message ++ (34 ∷ codes "  " ++ tags d))))))

unfoldable pub report_fix :
    Option Text → Text → Text → Diagnostic → LintState × Console → LintState × Console
report_fix (some fix) command filename d (s, io) =
    (s, write_out (sed_line command fix filename d) io)
report_fix none command filename d (s, io) = (s, write_err (no_fix_line filename d) io)

unfoldable pub report_sed : Text → Text → Diagnostic → LintState × Console → LintState × Console
unfolding report_fix
report_sed command filename d w =
    report_fix (lookup_fixup d.message sed_fixups) command filename d w

-- The output of one error, by output_format
unfoldable pub report_as :
    OutputFormat → Text → Diagnostic → LintState × Console → LintState × Console
report_as vs7 filename d (s, io) = print_error (vs7_line filename d) (s, io)
report_as eclipse filename d (s, io) = (s, write_err (eclipse_line filename d) io)
report_as junit filename d (s, io) = (
  add_junit_failure
      (record {
        filename = filename;
        line = d.line;
        message = d.message;
        category = d.category;
        confidence = d.confidence;
      })
      s,
  io,
)
report_as sed filename d w = report_sed (codes "sed") filename d w
report_as gsed filename d w = report_sed (codes "gsed") filename d w
report_as emacs filename d (s, io) = (s, write_err (emacs_line filename d) io)

-- Error(filename, linenum, category, confidence, message); `none` is the failed assertion in
-- _ShouldPrintError.
unfoldable pub report_error :
    Text → Suppressions → Diagnostic → LintState × Console → Option (LintState × Console)
report_error filename sup d (s, io) =
    elim (should_print_error d.category d.confidence d.line sup s) [
      | none ↦ none
      | some false ↦ some (s, io)
      | some true ↦
          some (report_as s.output_format filename d (increment_error_count d.category s, io))
    ]
