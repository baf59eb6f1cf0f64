-- ===== src/Blocks/Closing.antt =====
-- CheckEnd of the block classes of cpplint.py: the checks at the closing brace.
use mathlib.Core.List.{reverse}
use myframe.Common.{
  ℕ, ◌+◌, ◌-◌, Bool, false, not, ◌&&◌, ◌||◌, none, some, List, [], ◌∷◌, ◌++◌, ltb, ◌==◌,
  if◌then◌else◌, length, take, drop, get_or,
}
use myframe.Text.{Text, codes}
use myframe.Regex.{
  Regex, alt, star, group, line_start, line_end, word_boundary, ◌&◌, group_text, match_pattern,
  search_pattern, matches,
}
use myframe.Regex.Classes.{char, literal, one_of, space, dot, plus, alts}
use myframe.Categories.{Diagnostic}
use myframe.Cleanse.Lines.{CleansedLines}
use myframe.Blocks.{
  report, generic_block, extern_c_block, ClassInfo, Kind, Block, class_block, namespace_block,
}

-- `\b(DISALLOW_COPY_AND_ASSIGN|DISALLOW_IMPLICIT_CONSTRUCTORS)\(` name `\)`. The name of a class is
-- made of letters, digits, underscores and colons, so that it matches itself.
unfoldable pub disallow_pattern : Text → Regex
disallow_pattern name =
    word_boundary
    & group 1 (
        alt (literal (codes "DISALLOW_COPY_AND_ASSIGN"))
          (literal (codes "DISALLOW_IMPLICIT_CONSTRUCTORS")))
    & char b'('
    & literal name
    & char b')'

-- `^\s*$`
unfoldable pub only_space_pattern : Regex
only_space_pattern = line_start & star space & line_end

-- The loop over the lines before the end of a class, the nearest first, whose numbers go down from
-- `i`; it ends at the first macro.
unfoldable pub check_disallow : Text → ℕ → Bool → List Text → List Diagnostic
unfolding disallow_pattern only_space_pattern
check_disallow name i seen_last_thing [] = []
check_disallow name i seen_last_thing (line ∷ before) =
    let rest =
      check_disallow name (i - 1) (seen_last_thing || not (matches only_space_pattern line))
        before in
    elim (search_pattern (disallow_pattern name) line) [
      | none ↦ rest
      | some m ↦
          if seen_last_thing
          then report i (codes "readability/constructors") 3
              (group_text 1 m ++ codes " should be the last thing in the class")
            ∷ []
          else []
    ]

-- `^( *)\}`
unfoldable pub closing_brace_pattern : Regex
closing_brace_pattern = line_start & group 1 (star (char 32)) & char b'}'

-- 'struct A' or 'class A'
abbrev pub parent_name : ClassInfo → Text
parent_name c = (if c.is_struct then codes "struct " else codes "class ") ++ c.name

-- The closing brace of a class, on line `linenum`
unfoldable pub check_class_indent : ClassInfo → ℕ → Text → List Diagnostic
unfolding closing_brace_pattern
check_class_indent c linenum line = elim (match_pattern closing_brace_pattern line) [
  | none ↦ []
  | some m ↦
      if length (group_text 1 m) == c.class_indent
      then []
      else report linenum (codes "whitespace/indent") 3
          (codes "Closing brace should be aligned with beginning of " ++ parent_name c)
        ∷ []
]

-- `};*\s*(//|/\*).*`, and `[\*/\.\\\s]*$`
abbrev comment_behind_brace : Regex
comment_behind_brace =
    line_start
    & star space
    & char b'}'
    & star (char b';')
    & star space
    & group 1 (alt (literal (codes "//")) (literal (codes "/*")))
    & star dot

abbrev end_of_comment : Regex
end_of_comment = star (alts (one_of (codes "*/." ++ 92 ∷ []) ∷ space ∷ [])) & line_end

-- `^\s*};*\s*(//|/\*).*\bnamespace\b`
unfoldable pub any_namespace_pattern : Regex
any_namespace_pattern =
    comment_behind_brace & word_boundary & literal (codes "namespace") & word_boundary

-- `^\s*};*\s*(//|/\*).*\bnamespace\s+` name `[\*/\.\\\s]*$`
unfoldable pub named_namespace_pattern : Text → Regex
named_namespace_pattern name =
    comment_behind_brace
    & word_boundary
    & literal (codes "namespace")
    & plus space
    & literal name
    & end_of_comment

-- `^\s*};*\s*(//|/\*).*\bnamespace[\*/\.\\\s]*$`
unfoldable pub anonymous_namespace_pattern : Regex
anonymous_namespace_pattern =
    comment_behind_brace & word_boundary & literal (codes "namespace") & end_of_comment

-- `^\s*}.*\b(namespace anonymous|anonymous namespace)\b`
unfoldable pub almost_anonymous_pattern : Regex
almost_anonymous_pattern =
    line_start
    & star space
    & char b'}'
    & star dot
    & word_boundary
    & group 1 (alt (literal (codes "namespace anonymous")) (literal (codes "anonymous namespace")))
    & word_boundary

abbrev quote : Text → Text
quote t = 34 ∷ (t ++ 34 ∷ [])

-- The comment behind the end of a namespace, by its name
unfoldable pub check_namespace_comment : Text → ℕ → Text → List Diagnostic
unfolding named_namespace_pattern anonymous_namespace_pattern almost_anonymous_pattern
check_namespace_comment [] linenum line =
    if matches anonymous_namespace_pattern line
    then []
    else report linenum (codes "readability/namespace") 5 (
        codes "Anonymous namespace should be terminated with "
        ++ (if matches almost_anonymous_pattern line
            then quote (codes "// namespace")
              ++ (codes " or " ++ quote (codes "// anonymous namespace"))
            else quote (codes "// namespace")))
      ∷ []
check_namespace_comment (c ∷ name) linenum line =
    if matches (named_namespace_pattern (c ∷ name)) line
    then []
    else report linenum (codes "readability/namespace") 5 (
        codes "Namespace should be terminated with " ++ quote (codes "// namespace " ++ (c ∷ name)))
      ∷ []

-- A namespace of fewer than ten lines needs no comment, unless one is there.
unfoldable pub check_namespace_end : Text → ℕ → ℕ → Text → List Diagnostic
unfolding any_namespace_pattern check_namespace_comment
check_namespace_end name starting_linenum linenum line =
    if ltb linenum (starting_linenum + 10) && not (matches any_namespace_pattern line)
    then []
    else check_namespace_comment name linenum line

-- CheckEnd(filename, clean_lines, linenum, error), by the class of the object
unfoldable pub check_end_of : Kind → ℕ → CleansedLines → ℕ → List Diagnostic
unfolding check_disallow check_class_indent check_namespace_end
check_end_of generic_block start clean linenum = []
check_end_of extern_c_block start clean linenum = []
check_end_of (class_block c) start clean linenum =
    check_disallow c.name (linenum - 1) false
      (reverse (drop (start + 1) (take linenum clean.elided)))
    ++ check_class_indent c linenum (get_or clean.elided linenum [])
check_end_of (namespace_block name) start clean linenum =
    check_namespace_end name start linenum (get_or clean.raw_lines linenum [])

unfoldable pub check_end : Block → CleansedLines → ℕ → List Diagnostic
unfolding check_end_of
check_end b clean linenum = check_end_of b.kind b.starting_linenum clean linenum
