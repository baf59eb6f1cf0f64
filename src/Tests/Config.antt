-- ===== src/Tests/Config.antt =====
-- Config.antt on two directories with a CPPLINT.cfg each.
use myframe.Common.{◌≡◌, refl, true, false, none, some, List, [], ◌∷◌, if◌then◌else◌}
use myframe.Common.Int.{pos}
use myframe.Text.{Text, codes, text_eq, starts_with}
use myframe.Suppress.{Suppressions}
use myframe.Lint.{init_lint_state, should_print_error}
use myframe.Options.{init_options}
use myframe.Config.{Host, World, config_files, process_config_overrides}
use myframe.Config.Filters.{process_config_overrides-nearest}
use myframe.Tests.Paths.Posix.{posix}

abbrev near_config : List Text
near_config = codes "# local" ∷ codes "filter = +build/include, -whitespace/tab  # note" ∷ []

abbrev top_config : List Text
top_config = codes "set noparent" ∷ codes "filter=-build" ∷ codes "linelength=100" ∷ []

abbrev host : Host
host = record {
  os = posix;
  is_file = λ p. true;
  read_file =
      λ p. if text_eq p (codes "/r/d/CPPLINT.cfg") then some near_config else some top_config;
  pattern_match = λ pattern name. some (text_eq pattern name);
  int = λ t. if text_eq t (codes "100") then some (pos 100) else none;
}

abbrev nothing_suppressed : Suppressions
nothing_suppressed = record { by_line = []; everywhere = [] }

abbrev world : World
world = record {
  options = init_options;
  lint = init_lint_state;
  console = record { stdout = []; stderr = [] };
}

abbrev read : World
read = record world { options = record init_options { line_length = pos 100 } }

abbrev applied : World
applied = record read {
  lint = record init_lint_state {
    filters =
        codes "-build/include_alpha"
        ∷ codes "-build"
        ∷ codes "+build/include"
        ∷ codes "-whitespace/tab"
        ∷ [];
  };
}

process_config_overrides-nearest_example :
    should_print_error (codes "build/include") 4 7 nothing_suppressed applied.lint ≡ some true
unfolding init_lint_state myframe.Categories.default_filters starts_with config_files
    myframe.Text.has_char process_config_overrides myframe.Lint.first_unsigned
    myframe.Lint.clean_filters myframe.Text.split myframe.Suppress.is_error_suppressed_by_nolint
    myframe.Text.is_one_of myframe.Suppress.suppressed_at
process_config_overrides-nearest_example =
    process_config_overrides-nearest host (codes "/r/d/a.cc") world read applied false
      (codes "+build/include, -whitespace/tab") (codes "-build" ∷ []) (codes "build/include") 4 7
      nothing_suppressed [] (codes "+build/include") (codes "-whitespace/tab" ∷ [])
      (record { in_use = (refl, tt); saved = (refl, tt) }) refl refl refl refl (refl, tt)
