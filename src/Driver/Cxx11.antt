-- ===== src/Driver/Cxx11.antt =====
-- FlagCxx11Features of cpplint.py.
use myframe.Common.{ℕ, not, ◌&&◌, none, some, List, [], ◌∷◌, ◌++◌, if◌then◌else◌}
use myframe.Text.{Text, codes, starts_with, is_one_of}
use myframe.Regex.{
  Regex, star, group, word_boundary, ◌&◌, group_text, match_pattern, matches, contains,
}
use myframe.Regex.Classes.{char, literal, one_of, none_of, space, plus}
use myframe.Categories.{Diagnostic}
use myframe.Blocks.{report}

-- `\s*#\s*include\s+[<"]([^<"]+)[">]`
unfoldable pub any_include_pattern : Regex
any_include_pattern =
    star space
    & char b'#'
    & star space
    & literal (codes "include")
    & plus space
    & one_of (b'<' ∷ 34 ∷ [])
    & group 1 (plus (none_of (b'<' ∷ 34 ∷ [])))
    & one_of (34 ∷ b'>' ∷ [])

unfoldable pub unapproved_headers : List Text
unapproved_headers =
    codes "cfenv"
    ∷ codes "condition_variable"
    ∷ codes "fenv.h"
    ∷ codes "future"
    ∷ codes "mutex"
    ∷ codes "thread"
    ∷ codes "chrono"
    ∷ codes "ratio"
    ∷ codes "regex"
    ∷ codes "system_error"
    ∷ []

unfoldable pub check_cxx11_header : Text → ℕ → List Diagnostic
unfolding unapproved_headers starts_with is_one_of
check_cxx11_header header linenum =
    (if starts_with header (codes "tr1/")
      then report linenum (codes "build/c++tr1") 5
          (codes "C++ TR1 headers such as <" ++ (header ++ codes "> are unapproved."))
        ∷ []
      else [])
    ++ (if is_one_of header unapproved_headers
        then report linenum (codes "build/c++11") 5
            (b'<' ∷ header ++ codes "> is an unapproved C++11 header.")
          ∷ []
        else [])

-- `\s*#` and `\s*#\s*define\b`
unfoldable pub directive_pattern : Regex
directive_pattern = star space & char b'#'

unfoldable pub define_pattern : Regex
define_pattern = star space & char b'#' & star space & literal (codes "define") & word_boundary

-- `\bstd::%s\b`
unfoldable pub std_pattern : Text → Regex
std_pattern name = word_boundary & literal (codes "std::" ++ name) & word_boundary

unfoldable pub check_top_names : List Text → Text → ℕ → List Diagnostic
unfolding std_pattern
check_top_names [] line linenum = []
check_top_names (name ∷ names) line linenum =
    (if contains (std_pattern name) line
      then report linenum (codes "build/c++11") 5 (
          codes "std::"
          ++ (name
              ++ codes
                  " is an unapproved C++11 class or function.  Send c-style an example of where it would make your code more readable, and they may let you use it."))
        ∷ []
      else [])
    ++ check_top_names names line linenum

-- FlagCxx11Features(filename, clean_lines, linenum, error), on clean_lines.elided[linenum]
unfoldable pub flag_cxx11_features : Text → ℕ → List Diagnostic
unfolding any_include_pattern check_cxx11_header directive_pattern define_pattern check_top_names
flag_cxx11_features line linenum =
    (elim (match_pattern any_include_pattern line) [
      | none ↦ []
      | some m ↦ check_cxx11_header (group_text 1 m) linenum
    ])
    ++ (if matches directive_pattern line && not (matches define_pattern line)
        then []
        else check_top_names (codes "alignment_of" ∷ codes "aligned_union" ∷ []) line linenum)
