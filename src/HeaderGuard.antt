-- ===== src/HeaderGuard.antt =====
-- CheckForHeaderGuard of cpplint.py. The variable that GetHeaderGuardCPPVariable makes of the file's
-- name is the argument `cppvar`: letters, digits and underscores, so that it matches itself in a
-- pattern.
pub mod Sought
use myframe.Common.{
  ℕ, suc, ◌+◌, ◌-◌, Bool, true, false, not, ◌&&◌, ◌||◌, none, some, List, [], ◌∷◌, ◌++◌,
  if◌then◌else◌, length, take, drop, any, get_or,
}
use myframe.Text.{Text, codes, text_eq, starts_with, is_space}
use myframe.Regex.{
  Regex, star, group, line_start, word_boundary, ◌&◌, Found, group_of, is_some, match_pattern,
  matches, contains,
}
use myframe.Regex.Classes.{char, literal, none_of, space, plus, opt, alts}
use myframe.Categories.{Diagnostic}

abbrev pub is_empty : Text → Bool
is_empty [] = true
is_empty (c ∷ s) = false

abbrev flush : Text → List Text → List Text
flush [] ws = ws
flush (c ∷ s) ws = (c ∷ s) ∷ ws

words_from : Text → Text → List Text
unfolding is_space
words_from current [] = flush current []
words_from current (c ∷ s) =
    let ended = flush current (words_from [] s) in
    let longer = words_from (current ++ c ∷ []) s in if is_space c then ended else longer

-- line.split()
unfoldable pub words : Text → List Text
unfolding words_from
words line = words_from [] line

-- `//\s*NOLINT\(build/header_guard\)`
unfoldable pub nolint_guard_pattern : Regex
nolint_guard_pattern =
    literal (codes "//") & star space & literal (codes "NOLINT(build/header_guard)")

-- `^\s*#pragma\s+once`
unfoldable pub pragma_pattern : Regex
pragma_pattern =
    line_start & star space & literal (codes "#pragma") & plus space & literal (codes "once")

-- What the loop over the lines keeps
pub record Guards : Type 0 where
  pub ifndef : Text
  pub ifndef_linenum : ℕ
  pub define : Text
  pub endif : Text
  pub endif_linenum : ℕ

abbrev pub no_guards : Guards
no_guards = record { ifndef = []; ifndef_linenum = 0; define = []; endif = []; endif_linenum = 0 }

unfoldable pub see_ifndef : ℕ → List Text → Guards → Guards
see_ifndef linenum (w ∷ name ∷ ws) g =
    if is_empty g.ifndef && text_eq w (codes "#ifndef")
    then record g { ifndef = name; ifndef_linenum = linenum }
    else g
see_ifndef linenum _ g = g

unfoldable pub see_define : List Text → Guards → Guards
see_define (w ∷ name ∷ ws) g =
    if is_empty g.define && text_eq w (codes "#define") then record g { define = name } else g
see_define _ g = g

unfoldable pub see_endif : ℕ → Text → Guards → Guards
see_endif linenum line g =
    if starts_with line (codes "#endif")
    then record g { endif = line; endif_linenum = linenum }
    else g

-- One round of the loop
unfoldable pub see_line : ℕ → Text → Guards → Guards
unfolding words see_ifndef see_define see_endif
see_line linenum line g =
    see_endif linenum line (see_define (words line) (see_ifndef linenum (words line) g))

unfoldable pub see_lines : ℕ → List Text → Guards → Guards
unfolding see_line
see_lines linenum [] g = g
see_lines linenum (line ∷ rest) g = see_lines (suc linenum) rest (see_line linenum line g)

-- A call of ParseNolintSuppressions on a line, or a report
pub data Action : Type 0 where
  parse_nolint : Text → ℕ → Action
  report : Diagnostic → Action

abbrev pub guard_error : ℕ → ℕ → Text → Action
guard_error linenum confidence message = report (record {
  line = linenum;
  category = codes "build/header_guard";
  confidence = confidence;
  message = message;
})

-- `#endif line should be "#endif  // %s"`, and the same with the other comment
abbrev pub line_comment_message : Text → Text
line_comment_message cppvar =
    codes "#endif line should be " ++ (34 ∷ codes "#endif  // " ++ (cppvar ++ 34 ∷ []))

abbrev pub block_comment_message : Text → Text
block_comment_message cppvar =
    codes "#endif line should be "
    ++ (34 ∷ codes "#endif  /* " ++ (cppvar ++ (codes " */" ++ 34 ∷ [])))

-- `#endif\s*//\s*` cppvar `(_)?\b`
unfoldable pub line_comment_pattern : Text → Regex
line_comment_pattern cppvar =
    literal (codes "#endif")
    & star space
    & literal (codes "//")
    & star space
    & literal cppvar
    & opt (group 1 (char b'_'))
    & word_boundary

-- `#endif\s*/\*\s*` cppvar `(_)?\s*\*/`
unfoldable pub block_comment_pattern : Text → Regex
block_comment_pattern cppvar =
    literal (codes "#endif")
    & star space
    & literal (codes "/*")
    & star space
    & literal cppvar
    & opt (group 1 (char b'_'))
    & star space
    & literal (codes "*/")

abbrev quoted : ℕ → Regex
quoted q = char q & star (alts (char b'.' ∷ none_of (q ∷ []) ∷ [])) & char q

-- `^(?:(?:\'(?:\.|[^\'])*\')|(?:"(?:\.|[^"])*")|[^\'"])*//`
unfoldable pub any_line_comment_pattern : Regex
any_line_comment_pattern =
    line_start
    & star (alts (quoted 39 ∷ quoted 34 ∷ none_of (39 ∷ 34 ∷ []) ∷ []))
    & literal (codes "//")

-- no_single_line_comments, over the lines but the first and the last
unfoldable pub no_single_line_comments : List Text → Bool
unfolding any_line_comment_pattern
no_single_line_comments lines =
    not (any (matches any_line_comment_pattern) (take (length lines - 2) (drop 1 lines)))

-- The comment is there: a doubled underscore behind the variable is reported.
abbrev pub on_comment : Found → ℕ → Text → List Action
on_comment m linenum message =
    if is_some (group_of 1 m) then guard_error linenum 0 message ∷ [] else []

-- From the check for a comment on the #endif line on
unfoldable pub check_endif : Text → List Text → Guards → List Action
unfolding line_comment_pattern block_comment_pattern no_single_line_comments
check_endif cppvar lines g = elim (match_pattern (line_comment_pattern cppvar) g.endif) [
  | some m ↦ on_comment m g.endif_linenum (line_comment_message cppvar)
  | none ↦
      let missing = guard_error g.endif_linenum 5 (line_comment_message cppvar) ∷ [] in
      if no_single_line_comments lines
      then (elim (match_pattern (block_comment_pattern cppvar) g.endif) [
        | some m ↦ on_comment m g.endif_linenum (block_comment_message cppvar)
        | none ↦ missing
      ])
      else missing
]

-- if ifndef != cppvar
unfoldable pub check_guard_style : Text → List Text → Guards → List Action
check_guard_style cppvar lines g =
    if text_eq g.ifndef cppvar
    then []
    else parse_nolint (get_or lines g.ifndef_linenum []) g.ifndef_linenum
      ∷ guard_error g.ifndef_linenum (if text_eq g.ifndef (cppvar ++ codes "_") then 0 else 5)
          (codes "#ifndef header guard has wrong style, please use: " ++ cppvar)
      ∷ []

unfoldable pub check_guards : Text → List Text → Guards → List Action
unfolding check_guard_style check_endif
check_guards cppvar lines g =
    if is_empty g.ifndef || (is_empty g.define || not (text_eq g.ifndef g.define))
    then guard_error 0 5
        (codes "No #ifndef header guard found, suggested CPP variable is: " ++ cppvar)
      ∷ []
    else check_guard_style cppvar lines g
      ++ parse_nolint (get_or lines g.endif_linenum []) g.endif_linenum ∷ check_endif cppvar lines g

-- CheckForHeaderGuard(filename, clean_lines, error) on clean_lines.lines_without_raw_strings
unfoldable pub check_for_header_guard : Text → List Text → List Action
unfolding nolint_guard_pattern pragma_pattern check_guards see_lines
check_for_header_guard cppvar lines =
    if any (contains nolint_guard_pattern) lines
    then []
    else if any (contains pragma_pattern) lines
    then []
    else check_guards cppvar lines (see_lines 0 lines no_guards)
