-- ===== src/Style/Sections.antt =====
-- GetPreviousNonBlankLine and CheckSectionSpacing of cpplint.py.
pub mod Previous
use myframe.Common.{
  ℕ, suc, ◌+◌, ◌-◌, not, ◌&&◌, ◌||◌, Option, none, some, List, [], ◌∷◌, ◌++◌, ltb, leb,
  if◌then◌else◌, take, drop, get_or,
}
use mathlib.Core.List.{reverse}
use myframe.Text.{Text, codes}
use myframe.Regex.{
  Regex, star, group, line_end, word_boundary, ◌&◌, group_text, match_pattern, contains,
}
use myframe.Regex.Classes.{char, space, one_text}
use myframe.Categories.{Diagnostic}
use myframe.Blocks.{report}
use myframe.FileChecks.{is_blank_line}
use myframe.Blocks.{ClassInfo}
use myframe.Style.Spacing.{section_pattern}

-- The nearest line of these that is not blank, with its number; the numbers go down from `linenum`.
unfoldable pub previous_non_blank : ℕ → List Text → Option (Text × ℕ)
unfolding is_blank_line
previous_non_blank linenum [] = none
previous_non_blank linenum (line ∷ before) =
    if is_blank_line line then previous_non_blank (linenum - 1) before else some (line, linenum)

-- GetPreviousNonBlankLine(clean_lines, linenum), over clean_lines.elided; `none` for ('', -1)
unfoldable pub get_previous_non_blank_line : List Text → ℕ → Option (Text × ℕ)
unfolding previous_non_blank
get_previous_non_blank_line elided linenum =
    previous_non_blank (linenum - 1) (reverse (take linenum elided))

-- GetPreviousNonBlankLine(clean_lines, linenum)[0]
abbrev pub previous_line : List Text → ℕ → Text
previous_line elided linenum = elim (get_previous_non_blank_line elided linenum) [
  | none ↦ []
  | some (line, n) ↦ line
]

-- `\b(class|struct)\b`, `\\$`, and `\{\s*$`
unfoldable pub class_head_pattern : Regex
class_head_pattern =
    word_boundary & group 1 (one_text (codes "class" ∷ codes "struct" ∷ [])) & word_boundary

unfoldable pub continued_pattern : Regex
continued_pattern = char 92 & line_end

unfoldable pub brace_at_end_pattern : Regex
brace_at_end_pattern = char b'{' & star space & line_end

-- The first of these lines, numbered from `i`, that ends with an open brace
unfoldable pub first_brace_line : ℕ → List Text → Option ℕ
unfolding brace_at_end_pattern
first_brace_line i [] = none
first_brace_line i (line ∷ rest) =
    let later = first_brace_line (suc i) rest in
    if contains brace_at_end_pattern line then some i else later

-- The line where the head of the class ends
unfoldable pub end_class_head : List Text → ℕ → ℕ → ℕ
unfolding first_brace_line
end_class_head lines starting_linenum linenum =
    elim (first_brace_line starting_linenum (drop starting_linenum (take linenum lines))) [
      | none ↦ starting_linenum
      | some i ↦ i
    ]

-- CheckSectionSpacing, on clean_lines.lines, for a class that starts at line `starting_linenum`
unfoldable pub check_section_spacing : List Text → ℕ → ClassInfo → ℕ → List Diagnostic
unfolding section_pattern is_blank_line class_head_pattern continued_pattern end_class_head
check_section_spacing lines starting_linenum c linenum =
    let prev_line = get_or lines (linenum - 1) [] in
    if leb c.last_line (starting_linenum + 24) || leb linenum starting_linenum
    then []
    else elim (match_pattern section_pattern (get_or lines linenum [])) [
      | none ↦ []
      | some m ↦
          if not (is_blank_line prev_line)
            && (not (contains class_head_pattern prev_line)
                && (not (contains continued_pattern prev_line)
                    && ltb (end_class_head lines starting_linenum linenum) (linenum - 1)))
          then report linenum (codes "whitespace/blank_line") 3 (
              34 ∷ group_text 1 m
              ++ (codes ":" ++ (34 ∷ codes " should be preceded by a blank line")))
            ∷ []
          else []
    ]
