-- ===== src/LineChecks.antt =====
-- Checks of single lines of cpplint.py: CheckPosixThreading, CheckVlogArguments,
-- CheckMakePairUsesDeduction and CheckRedundantOverrideOrFinal.
pub mod Virtual
use myframe.Common.{
  ℕ, ◌+◌, ◌-◌, Bool, true, false, ◌&&◌, Option, none, some, List, [], ◌∷◌, ◌++◌, ◌==◌, ltb,
  if◌then◌else◌, get_or,
}
use myframe.Text.{Text, codes, has_char}
use myframe.Regex.{Regex, alt, star, group, word_boundary, ◌&◌, contains}
use myframe.Regex.Classes.{char, literal, one_of, none_of, space, plus, alts}
use myframe.Categories.{Diagnostic}
use myframe.Blocks.{report}

-- _UNSAFE_FUNC_PREFIX: `(?:[-+*/=%^&|(<]\s*|>\s+)`
unfoldable pub unsafe_func_prefix : Regex
unsafe_func_prefix = alt (one_of (codes "-+*/=%^&|(<") & star space) (char b'>' & plus space)

-- The prefix, the name and `([^)]+\)`, or the name and `\(\)`
unfoldable pub call_pattern : Text × Bool → Regex
unfolding unsafe_func_prefix
call_pattern (name, true) =
    unsafe_func_prefix & literal (name ++ codes "(") & plus (none_of (codes ")")) & char b')'
call_pattern (name, false) = unsafe_func_prefix & literal (name ++ codes "()")

-- _THREADING_LIST: the functions, with whether they have arguments
unfoldable pub threading_list : List (Text × Bool)
threading_list =
    (codes "asctime", true)
    ∷ (codes "ctime", true)
    ∷ (codes "getgrgid", true)
    ∷ (codes "getgrnam", true)
    ∷ (codes "getlogin", false)
    ∷ (codes "getpwnam", true)
    ∷ (codes "getpwuid", true)
    ∷ (codes "gmtime", true)
    ∷ (codes "localtime", true)
    ∷ (codes "rand", false)
    ∷ (codes "strtok", true)
    ∷ (codes "ttyname", true)
    ∷ []

unfoldable pub check_threading : List (Text × Bool) → Text → ℕ → List Diagnostic
unfolding call_pattern
check_threading [] line linenum = []
check_threading ((name, arguments) ∷ rest) line linenum =
    (if contains (call_pattern (name, arguments)) line
      then report linenum (codes "runtime/threadsafe_fn") 2 (
          codes "Consider using "
          ++ (name
              ++ (codes "_r(...) instead of "
                  ++ (name ++ codes "(...) for improved thread safety."))))
        ∷ []
      else [])
    ++ check_threading rest line linenum

-- CheckPosixThreading, on clean_lines.elided[linenum]
unfoldable pub check_posix_threading : Text → ℕ → List Diagnostic
unfolding check_threading threading_list
check_posix_threading line linenum = check_threading threading_list line linenum

-- `\bVLOG\((INFO|ERROR|WARNING|DFATAL|FATAL)\)`
unfoldable pub vlog_pattern : Regex
vlog_pattern =
    word_boundary
    & literal (codes "VLOG(")
    & group 1 (
        alts (
          literal (codes "INFO")
          ∷ literal (codes "ERROR")
          ∷ literal (codes "WARNING")
          ∷ literal (codes "DFATAL")
          ∷ literal (codes "FATAL")
          ∷ []))
    & char b')'

-- CheckVlogArguments
unfoldable pub check_vlog_arguments : Text → ℕ → List Diagnostic
unfolding vlog_pattern
check_vlog_arguments line linenum =
    if contains vlog_pattern line
    then report linenum (codes "runtime/vlog") 5 (
        codes
          "VLOG() should be used with numeric verbosity level.  Use LOG() if you want symbolic severity levels.")
      ∷ []
    else []

-- `\bmake_pair\s*<`
unfoldable pub explicit_make_pair_pattern : Regex
explicit_make_pair_pattern = word_boundary & literal (codes "make_pair") & star space & char b'<'

-- CheckMakePairUsesDeduction
unfoldable pub check_make_pair_uses_deduction : Text → ℕ → List Diagnostic
unfolding explicit_make_pair_pattern
check_make_pair_uses_deduction line linenum =
    if contains explicit_make_pair_pattern line
    then report linenum (codes "build/explicit_make_pair") 4 (
        codes
          "For C++11-compatibility, omit template arguments from make_pair OR use pair directly OR if appropriate, construct a pair directly")
      ∷ []
    else []

-- line[line.rfind(')'):], `none` where there is no `)`
abbrev from_last_parenthesis : Text → Option Text
from_last_parenthesis [] = none
from_last_parenthesis (c ∷ s) = elim (from_last_parenthesis s) [
  | some t ↦ some t
  | none ↦ if c == b')' then some (c ∷ s) else none
]

-- `\boverride\b` and `\bfinal\b`
unfoldable pub word_pattern : Text → Regex
word_pattern word = word_boundary & literal word & word_boundary

-- The part of the line in which the specifiers stand
unfoldable pub specifier_fragment : List Text → ℕ → Option Text
unfolding has_char
specifier_fragment elided linenum =
    let line = get_or elided linenum [] in
    elim (from_last_parenthesis line) [
      | some fragment ↦ some fragment
      | none ↦
          if ltb 1 linenum && has_char (get_or elided (linenum - 1) []) b')'
          then some line
          else none
    ]

-- CheckRedundantOverrideOrFinal
unfoldable pub check_redundant_override_or_final : List Text → ℕ → List Diagnostic
unfolding specifier_fragment word_pattern
check_redundant_override_or_final elided linenum = elim (specifier_fragment elided linenum) [
  | none ↦ []
  | some fragment ↦
      if contains (word_pattern (codes "override")) fragment
        && contains (word_pattern (codes "final")) fragment
      then report linenum (codes "readability/inheritance") 4 (
          (34 ∷ codes "override")
          ++ ((34 ∷ codes " is redundant since function is already declared as ")
              ++ ((34 ∷ codes "final") ++ 34 ∷ [])))
        ∷ []
      else []
]
