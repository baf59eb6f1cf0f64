-- ===== src/Style/Comments.antt =====
-- CheckComment of cpplint.py.
use myframe.Common.{
  ℕ, ◌-◌, ◌%◌, Bool, true, false, not, ◌&&◌, ◌||◌, Option, none, some, List, [], ◌∷◌, ◌++◌, ltb,
  leb, ◌==◌, if◌then◌else◌, length, take, drop, get_or,
}
use myframe.Text.{Text, codes, text_eq, has_char, find, count}
use myframe.Regex.{
  Regex, alt, star, lazy_star, group, line_start, line_end, ◌&◌, group_of, group_text,
  match_pattern, matches, replace_all,
}
use myframe.Regex.Classes.{char, literal, none_of, space, word, dot, plus, opt}
use myframe.Categories.{Diagnostic}
use myframe.Blocks.{report}

-- A character of string.whitespace
abbrev is_ascii_space : ℕ → Bool
is_ascii_space c = has_char (32 ∷ 9 ∷ 10 ∷ 13 ∷ 11 ∷ 12 ∷ []) c

-- `\\.`
unfoldable pub escaped_pattern : Regex
escaped_pattern = char 92 & dot

-- `^.*{ *//`
unfoldable pub comment_behind_brace_pattern : Regex
comment_behind_brace_pattern =
    line_start & star dot & char b'{' & star (char 32) & literal (codes "//")

-- _RE_PATTERN_TODO: `^//(\s*)TODO(\(.+?\))?:?(\s|$)?`
unfoldable pub todo_pattern : Regex
todo_pattern =
    line_start
    & literal (codes "//")
    & group 1 (star space)
    & literal (codes "TODO")
    & opt (group 2 (char b'(' & dot & lazy_star dot & char b')'))
    & opt (char b':')
    & opt (group 3 (alt space line_end))

-- `//[^ ]*\w`, and `(///|//\!)(\s+|$)`
unfoldable pub unspaced_comment_pattern : Regex
unspaced_comment_pattern = literal (codes "//") & star (none_of (codes " ")) & word

unfoldable pub doc_comment_pattern : Regex
doc_comment_pattern =
    group 1 (alt (literal (codes "///")) (literal (codes "//!")))
    & group 2 (alt (plus space) line_end)

-- The character `back` places before the comment is there and is no space.
unfoldable pub is_code_before : Text → ℕ → ℕ → Bool
is_code_before line comment_pos back =
    leb back comment_pos && not (is_ascii_space (get_or line (comment_pos - back) 32))

-- What is reported of the spaces behind a TODO: of a group that took no part, as of any other text
-- but the empty one and one space
unfoldable pub check_middle_whitespace : Option Text → ℕ → List Diagnostic
unfolding text_eq
check_middle_whitespace middle linenum =
    let missing =
      report linenum (codes "whitespace/todo") 2
        (codes "TODO(my_username) should be followed by a space")
      ∷ [] in
    elim middle [
      | none ↦ missing
      | some t ↦ if text_eq t (codes " ") || text_eq t [] then [] else missing
    ]

abbrev is_empty : Text → Bool
is_empty [] = true
is_empty (c ∷ s) = false

unfoldable pub check_todo : Text → ℕ → List Diagnostic
unfolding todo_pattern check_middle_whitespace
check_todo comment linenum = elim (match_pattern todo_pattern comment) [
  | none ↦ []
  | some m ↦
      (if ltb 1 (length (group_text 1 m))
        then report linenum (codes "whitespace/todo") 2 (codes "Too many spaces before TODO") ∷ []
        else [])
      ++ ((if is_empty (group_text 2 m)
            then report linenum (codes "readability/todo") 2 (
                codes "Missing username in TODO; it should look like "
                ++ (34 ∷ codes "// TODO(my_username): Stuff." ++ 34 ∷ []))
              ∷ []
            else [])
          ++ check_middle_whitespace (group_of 3 m) linenum)
]

-- The checks of a line whose comment, at `comment_pos`, is not inside a string
unfoldable pub check_comment_at : Text → ℕ → ℕ → ℕ → List Diagnostic
unfolding comment_behind_brace_pattern is_code_before check_todo unspaced_comment_pattern
    doc_comment_pattern
check_comment_at line linenum next_line_start comment_pos =
    let comment = drop comment_pos line in
    (if not (matches comment_behind_brace_pattern line && (next_line_start == comment_pos))
        && (is_code_before line comment_pos 1 || is_code_before line comment_pos 2)
      then report linenum (codes "whitespace/comments") 2
          (codes "At least two spaces is best between code and comments")
        ∷ []
      else [])
    ++ (check_todo comment linenum
        ++ (if matches unspaced_comment_pattern comment && not (matches doc_comment_pattern comment)
            then report linenum (codes "whitespace/comments") 4
                (codes "Should have a space between // and comment")
              ∷ []
            else []))

-- CheckComment(line, filename, linenum, next_line_start, error)
unfoldable pub check_comment : Text → ℕ → ℕ → List Diagnostic
unfolding find count escaped_pattern check_comment_at
check_comment line linenum next_line_start = elim (find line (codes "//")) [
  | none ↦ []
  | some comment_pos ↦
      if count (34 ∷ []) (replace_all escaped_pattern [] (take comment_pos line)) % 2 == 0
      then check_comment_at line linenum next_line_start comment_pos
      else []
]
