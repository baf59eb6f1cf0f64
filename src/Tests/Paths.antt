-- ===== src/Tests/Paths.antt =====
-- Paths.antt and Includes/Check.antt on a small file system.
pub mod Posix
use myframe.Common.{◌≡◌, ◌≢◌, refl, false, arith, none, some, [], ◌∷◌, ◌++◌}
use myframe.Text.{Text, codes}
use myframe.Regex.{Found}
use myframe.Cleanse.Lines.{CleansedLines, cleansed_lines}
use myframe.Options.{init_options}
use myframe.Paths.{repository_name, svn_root}
use myframe.Paths.Ends.{repository_name-ne-none, svn_root-none}
use myframe.Includes.{reset_section, IncludeState, init_include_state, other_h_section}
use myframe.Includes.Order.{IsValid}
use myframe.Includes.Check.{check_subdir, check_include_line, duplicate}
use myframe.Includes.Check.Later.{directive, here}
use myframe.Includes.Check.Duplicate.{check_include_line-repeat}
use myframe.Tests.Paths.Posix.{posix, posix-ShortensPaths, posix-HasPlainTop, with_svn}

name_in_git : repository_name posix none (codes "/r/d/a.cc") ≡ some (codes "d/a.cc")
unfolding repository_name myframe.Text.has_char
name_in_git = refl

repository_name-ne-none_example : repository_name posix none (codes "/r/d/a.cc") ≢ none
repository_name-ne-none_example =
    repository_name-ne-none posix none (codes "/r/d/a.cc") posix-ShortensPaths posix-HasPlainTop

svn_root-none_example : svn_root with_svn 100 (codes "/") (codes "/") ≡ none
unfolding myframe.Text.has_char
svn_root-none_example = svn_root-none with_svn 100 (codes "/") (codes "/") refl refl

-- Two lines that include `x/y.h`
abbrev clean : CleansedLines
clean = cleansed_lines (
    codes "// marker"
    ∷ (codes "#include " ++ (34 ∷ codes "x/y.h" ++ 34 ∷ []))
    ∷ (codes "#include " ++ (34 ∷ codes "x/y.h" ++ 34 ∷ []))
    ∷ [])

abbrev after_first : IncludeState
after_first = record {
  include_list = ((codes "x/y.h", 1) ∷ []) ∷ [];
  section = other_h_section;
  last_header = codes "x/y.h";
}

init-IsValid : IsValid init_include_state
unfolding init_include_state
init-IsValid = record { section_le = omega arith; listed = λ e. cc }

abbrev found : Found
found = record {
  at = 0;
  text = codes "#include " ++ (34 ∷ codes "x/y.h" ++ 34 ∷ []);
  rest = [];
  groups = (2, codes "x/y.h") ∷ (1, 34 ∷ []) ∷ [];
}

-- An #ifdef stands between the two lines.
abbrev in_branch : IncludeState
in_branch = reset_section (codes "ifdef") after_first

check_include_line-repeat_example :
    check_include_line posix init_options (codes "/r/d/a.cc") clean 2 in_branch
    ≡ some (
      in_branch,
      check_subdir init_options (codes "#include " ++ (34 ∷ codes "x/y.h" ++ 34 ∷ [])) 2
          ++ duplicate (codes "/r/d/a.cc") 2 (codes "x/y.h") 1 ∷ [],
    )
unfolding check_include_line cleansed_lines init_include_state myframe.Text.has_char
    myframe.Text.is_space myframe.Regex.search_pattern myframe.Regex.replace_all
    myframe.Regex.match_pattern
check_include_line-repeat_example =
    check_include_line-repeat posix init_options (codes "/r/d/a.cc") clean 1 2 found found false
      init_include_state after_first in_branch [] refl refl refl init-IsValid refl refl refl refl
      refl (directive (codes "ifdef") after_first in_branch refl (here in_branch))
