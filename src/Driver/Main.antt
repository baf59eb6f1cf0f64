-- ===== src/Driver/Main.antt =====
-- main of cpplint.py.
use myframe.Common.{Bool, true, false, not, ◌||◌, Option, some, List, if◌then◌else◌, ltb, ◌>>=◌}
use myframe.Text.{Text}
use myframe.Lint.{OutputFormat, junit, reset_error_counts, print_error_counts, write_err}
use myframe.Lint.Junit.{TestSuite, format_junit_xml}
use myframe.Config.{World}
use myframe.Arguments.{Shell, ok, stop, parse_arguments}
use myframe.Driver.{Checks}
use myframe.Driver.File.{Input, Program, Ended, returned, stops, process_files}

abbrev is_junit : OutputFormat → Bool
is_junit junit = true
is_junit _ = false

-- What is written behind the files; `to_string` is what xml.etree makes of the tree.
unfoldable pub print_results : (TestSuite → Text) → World → World
unfolding print_error_counts format_junit_xml
print_results to_string w =
    let s = w.lint in
    let counted =
      if not s.quiet || ltb 0 s.error_count
      then print_error_counts false s w.console
      else w.console in
    record w {
      console =
          if is_junit s.output_format
          then write_err (format_junit_xml to_string s) counted
          else counted;
    }

-- main(), up to the exit
unfoldable pub run_main :
    Shell → Checks → Input → (TestSuite → Text) → List Text → Program → Option Ended
unfolding reset_error_counts print_results parse_arguments process_files
run_main shell checks input to_string args p =
    let (w, parsed) = parse_arguments shell args p.world in
    elim parsed [
      | stop s ↦ some (stops (record p { world = w }) s)
      | ok filenames ↦
          (process_files checks input shell.host filenames
              (record p { world = record w { lint = reset_error_counts w.lint } })
            >>= λ ended. elim ended [
              | returned p' ↦
                  some (returned (record p' { world = print_results to_string p'.world }))
              | stops p' s ↦ some (stops p' s)
            ])
    ]

-- The argument of sys.exit at the end
unfoldable pub exit_status : Program → Bool
exit_status p = ltb 0 p.world.lint.error_count
