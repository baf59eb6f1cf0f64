-- ===== src/Driver/Completes.antt =====
-- ProcessFileData of cpplint.py comes to an end: no assertion fails on the way.
use myframe.Common.{◌≡◌, List}
use myframe.Text.{Text}
use myframe.Lint.{LintState}
use myframe.Options.{Options}
use myframe.Driver.Holds.{Holds}

-- The filters in use, and the saved ones, are these.
abbrev pub HasFilters : List Text → List Text → LintState → Type 0
HasFilters filters saved s = (s.filters ≡ filters) × (s.filters_backup ≡ saved)
