-- ===== src/Style/Spacing.antt =====
-- CheckSpacing of cpplint.py.
use myframe.Common.{
  ℕ, zero, suc, ◌-◌, Bool, false, not, ◌&&◌, ◌||◌, none, some, List, [], ◌∷◌, ◌++◌, if◌then◌else◌,
  length, take, drop, get_or,
}
use mathlib.Core.List.{reverse}
use myframe.Text.{Text, codes, text_eq, has_char, has_text, rfind, lstrip}
use myframe.Regex.{
  Regex, alt, star, group, line_end, not_ahead, ◌&◌, group_text, match_pattern, matches, contains,
}
use myframe.Regex.Classes.{char, literal, none_of, space, word, dot, plus, opt, one_text, alts}
use myframe.Categories.{Diagnostic}
use myframe.Blocks.{report}
use myframe.FileChecks.{is_blank_line}
use myframe.Cleanse.Lines.{CleansedLines}
use myframe.Nesting.Stack.{in_namespace_body, in_extern_c}
use myframe.Nesting.Update.{Nesting}
use myframe.Style.Comments.{check_comment}

-- lines[-1]
abbrev last_line : List Text → Text
last_line [] = []
last_line (a ∷ []) = a
last_line (a ∷ b ∷ lines) = last_line (b ∷ lines)

-- lines[linenum - 1], which for the first line is the last one
abbrev pub line_before : List Text → ℕ → Text
line_before lines zero = last_line lines
line_before lines (suc n) = get_or lines n []

-- ` {6}\w`
unfoldable pub six_spaces_pattern : Regex
six_spaces_pattern = literal (codes "      ") & word

-- ` {4}\w[^\(]*\)\s*(const\s*)?(\{\s*$|:)`, and ` {4}:`
unfoldable pub wrapped_head_pattern : Regex
wrapped_head_pattern =
    literal (codes "    ")
    & word
    & star (none_of (codes "("))
    & char b')'
    & star space
    & opt (group 1 (literal (codes "const") & star space))
    & group 2 (alt (char b'{' & star space & line_end) (char b':'))

unfoldable pub four_spaces_colon_pattern : Regex
four_spaces_colon_pattern = literal (codes "    :")

-- The lines before, the nearest first: behind those with six spaces, one begins an initializer list.
unfoldable pub in_initializer_list : List Text → Bool
unfolding six_spaces_pattern text_eq
in_initializer_list [] = false
in_initializer_list (line ∷ before) =
    let more = in_initializer_list before in
    if matches six_spaces_pattern line then more else text_eq (take 5 line) (codes "    :")

-- The blank line behind `prev_line` is not to be reported.
unfoldable pub is_wrapped_head : List Text → ℕ → Text → Bool
unfolding in_initializer_list wrapped_head_pattern four_spaces_colon_pattern
is_wrapped_head elided linenum prev_line =
    if matches six_spaces_pattern prev_line
    then in_initializer_list (reverse (take (linenum - 1) elided))
    else matches wrapped_head_pattern prev_line || matches four_spaces_colon_pattern prev_line

-- A brace is opened on the line, and there is no closing one behind it.
unfoldable pub leaves_brace_open : Text → Bool
unfolding rfind has_char
leaves_brace_open line = elim (rfind line b'{') [
  | none ↦ false
  | some i ↦ not (has_char (drop i line) b'}')
]

unfoldable pub check_block_start : List Text → ℕ → Text → List Diagnostic
unfolding leaves_brace_open is_wrapped_head
check_block_start elided linenum prev_line =
    if leaves_brace_open prev_line && not (is_wrapped_head elided linenum prev_line)
    then report linenum (codes "whitespace/blank_line") 2
        (codes "Redundant blank line at the start of a code block should be deleted.")
      ∷ []
    else []

-- `\s*}`
unfoldable pub block_closing_pattern : Regex
block_closing_pattern = star space & char b'}'

unfoldable pub check_block_end : List Text → ℕ → List Diagnostic
unfolding block_closing_pattern has_text
check_block_end raw linenum =
    let next_line = get_or raw (suc linenum) [] in
    if matches block_closing_pattern next_line && not (has_text next_line (codes "} else "))
    then report linenum (codes "whitespace/blank_line") 3
        (codes "Redundant blank line at the end of a code block should be deleted.")
      ∷ []
    else []

-- `\s*(public|protected|private):`
unfoldable pub section_pattern : Regex
section_pattern =
    star space
    & group 1 (one_text (codes "public" ∷ codes "protected" ∷ codes "private" ∷ []))
    & char b':'

unfoldable pub check_behind_section : Text → ℕ → List Diagnostic
unfolding section_pattern
check_behind_section prev_line linenum = elim (match_pattern section_pattern prev_line) [
  | none ↦ []
  | some m ↦
      report linenum (codes "whitespace/blank_line") 3
        (codes "Do not leave a blank line after " ++ (34 ∷ group_text 1 m ++ codes ":" ++ 34 ∷ []))
      ∷ []
]

unfoldable pub check_blank_line : CleansedLines → ℕ → List Diagnostic
unfolding check_block_start check_block_end check_behind_section
check_blank_line clean linenum =
    let prev_line = line_before clean.elided linenum in
    check_block_start clean.elided linenum prev_line
    ++ (check_block_end clean.lines_without_raw_strings linenum
        ++ check_behind_section prev_line linenum)

-- `\w\s+\[(?!\[)`, and `(?:auto&?|delete|return)\s+\[`
unfoldable pub space_before_bracket_pattern : Regex
space_before_bracket_pattern = word & plus space & char b'[' & not_ahead (char b'[')

unfoldable pub bracket_behind_keyword_pattern : Regex
bracket_behind_keyword_pattern =
    alts (
      (literal (codes "auto") & opt (char b'&'))
      ∷ literal (codes "delete")
      ∷ literal (codes "return")
      ∷ [])
    & plus space
    & char b'['

-- `for *\(.*[^:]:[^: ]`, and `for *\(.*[^: ]:[^:]`
abbrev for_colon : Regex → Regex → Regex
for_colon before behind =
    literal (codes "for") & star (char 32) & char b'(' & star dot & before & char b':' & behind

unfoldable pub no_space_behind_colon_pattern : Regex
no_space_behind_colon_pattern = for_colon (none_of (codes ":")) (none_of (codes ": "))

unfoldable pub no_space_before_colon_pattern : Regex
no_space_before_colon_pattern = for_colon (none_of (codes ": ")) (none_of (codes ":"))

unfoldable pub check_brackets_and_colons : Text → ℕ → List Diagnostic
unfolding space_before_bracket_pattern bracket_behind_keyword_pattern no_space_behind_colon_pattern
    no_space_before_colon_pattern
check_brackets_and_colons line linenum =
    (if contains space_before_bracket_pattern line
        && not (contains bracket_behind_keyword_pattern line)
      then report linenum (codes "whitespace/braces") 5 (codes "Extra space before [") ∷ []
      else [])
    ++ (if contains no_space_behind_colon_pattern line
          || contains no_space_before_colon_pattern line
        then report linenum (codes "whitespace/forcolon") 2
            (codes "Missing space around colon in range-based for loop")
          ∷ []
        else [])

-- The first column of the next line that is no space, 0 where there is none
unfoldable pub next_line_start : List Text → ℕ → ℕ
unfolding lstrip
next_line_start raw linenum =
    let next_line = get_or raw (suc linenum) [] in length next_line - length (lstrip next_line)

-- CheckSpacing
unfoldable pub check_spacing : CleansedLines → ℕ → Nesting → List Diagnostic
unfolding is_blank_line check_blank_line next_line_start check_comment check_brackets_and_colons
    in_namespace_body in_extern_c
check_spacing clean linenum nesting =
    let raw = clean.lines_without_raw_strings in
    let line = get_or raw linenum [] in
    let stack = nesting.state.stack in
    (if is_blank_line line && (not (in_namespace_body stack) && not (in_extern_c stack))
      then check_blank_line clean linenum
      else [])
    ++ (check_comment line linenum (next_line_start raw linenum)
        ++ check_brackets_and_colons (get_or clean.elided linenum []) linenum)
