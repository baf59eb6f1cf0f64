-- ===== src/Style/Braces.antt =====
-- _IsType, CheckBracesSpacing and CheckSectionSpacing of cpplint.py.
use myframe.Common.{
  ℕ, zero, suc, ◌-◌, Bool, false, not, ◌&&◌, ◌||◌, Option, none, some, List, [], ◌∷◌, ◌++◌,
  if◌then◌else◌, length, take, drop, get_or, any,
}
use myframe.Text.{Text, codes, has_text, count, join}
use myframe.Regex.{
  Regex, eps, star, group, line_start, line_end, word_boundary, ◌&◌, group_text, match_pattern,
  matches, contains,
}
use myframe.Regex.Classes.{
  char, literal, one_of, none_of, one_of_or_space, space, non_space, dot, plus, opt, one_text, alts,
  whole_word,
}
use myframe.Categories.{Diagnostic}
use myframe.Blocks.{report}
use myframe.Blocks.{Block, is_namespace}
use myframe.Brackets.{Place, close_expression}

-- _TYPES
unfoldable pub types_pattern : Regex
types_pattern =
    line_start
    & alts (
        (group 1
          (literal (codes "char") & opt (group 2 (one_text (codes "16_t" ∷ codes "32_t" ∷ [])))))
        ∷ one_text (
            codes "wchar_t"
            ∷ codes "bool"
            ∷ codes "short"
            ∷ codes "int"
            ∷ codes "long"
            ∷ codes "signed"
            ∷ codes "unsigned"
            ∷ codes "float"
            ∷ codes "double"
            ∷ [])
        ∷ group 3 (
            one_text
              (codes "ptrdiff_t" ∷ codes "size_t" ∷ codes "max_align_t" ∷ codes "nullptr_t" ∷ []))
        ∷ group 4 (
            opt (char b'u')
            & literal (codes "int")
            & opt (group 5 (one_text (codes "_fast" ∷ codes "_least" ∷ [])))
            & group 6 (one_text (codes "8" ∷ codes "16" ∷ codes "32" ∷ codes "64" ∷ []))
            & literal (codes "_t"))
        ∷ group 7 (
            opt (char b'u')
            & literal (codes "int")
            & group 8 (one_text (codes "max" ∷ codes "ptr" ∷ []))
            & literal (codes "_t"))
        ∷ eps
        ∷ [])
    & line_end

-- `^.*(\b\S+)$`
unfoldable pub last_token_pattern : Regex
last_token_pattern = line_start & star dot & group 1 (word_boundary & plus non_space) & line_end

unfoldable pub token_of : Text → Text
unfolding last_token_pattern
token_of expr = elim (match_pattern last_token_pattern expr) [
  | none ↦ expr
  | some m ↦ group_text 1 m
]

-- `\b(?:typename|class|struct)\s+` token `\b`
unfoldable pub typename_pattern : Text → Regex
typename_pattern token =
    word_boundary
    & one_text (codes "typename" ∷ codes "class" ∷ codes "struct" ∷ [])
    & plus space
    & literal token
    & word_boundary

-- The nearest line that has the word template, among `count` lines that end with line `linenum`
unfoldable pub template_line : ℕ → List Text → ℕ → Option ℕ
unfolding has_text
template_line zero elided linenum = none
template_line (suc count) elided linenum =
    let earlier = template_line count elided (linenum - 1) in
    if has_text (get_or elided linenum []) (codes "template") then some linenum else earlier

-- The line where the next outer block starts, 0 outside of all blocks
abbrev next_block_start : List Block → ℕ
next_block_start [] = 0
next_block_start (b ∷ bs) = b.starting_linenum

-- The block begins with a template argument list that has the token.
unfoldable pub is_template_argument : Text → List Text → Block → List Block → Bool
unfolding template_line typename_pattern
is_template_argument token elided b outer =
    let last = b.starting_linenum in
    elim (template_line (suc last - next_block_start outer) elided last) [
      | none ↦ false
      | some first ↦ any (contains (typename_pattern token)) (drop first (take (suc last) elided))
    ]

-- The loop over the blocks from the innermost one out
unfoldable pub is_template_type : Text → List Text → List Block → Bool
unfolding is_template_argument
is_template_type token elided [] = false
is_template_type token elided (b ∷ outer) =
    let later = is_template_type token elided outer in
    if is_namespace b.kind then false else is_template_argument token elided b outer || later

-- _IsType(clean_lines, nesting_state, expr)
unfoldable pub is_type : List Text → List Block → Text → Bool
unfolding token_of types_pattern is_template_type
is_type elided stack expr =
    let token = token_of expr in matches types_pattern token || is_template_type token elided stack

-- `^(.*[^ ({>]){`
unfoldable pub tight_brace_pattern : Regex
tight_brace_pattern = line_start & group 1 (star dot & none_of (codes " ({>")) & char b'{'

-- `^[\s}]*[{.;,)<>\]:]`
unfoldable pub initializer_end_pattern : Regex
initializer_end_pattern =
    line_start & star (one_of_or_space (codes "}")) & one_of (codes "{.;,)<>]:")

-- What follows the closing brace: the rest of its line, and the two lines behind it, the last line of
-- the file left out
unfoldable pub trailing_text : List Text → Place → Text
trailing_text elided place =
    let behind = join [] (take 2 (drop (suc place.linenum) (take (length elided - 1) elided))) in
    elim place.pos [ none ↦ behind | some end_pos ↦ drop end_pos place.line ++ behind ]

unfoldable pub check_brace : List Text → ℕ → List Block → List Diagnostic
unfolding tight_brace_pattern initializer_end_pattern trailing_text is_type close_expression
check_brace elided linenum stack =
    elim (match_pattern tight_brace_pattern (get_or elided linenum [])) [
      | none ↦ []
      | some m ↦
          let leading_text = group_text 1 m in
          elim (close_expression elided linenum (length leading_text)) [
            | none ↦ []
            | some place ↦
                if matches initializer_end_pattern (trailing_text elided place)
                  || is_type elided stack leading_text
                then []
                else report linenum (codes "whitespace/braces") 5 (codes "Missing space before {")
                  ∷ []
          ]
    ]

-- `:\s*;\s*$`, `^\s*;\s*$`, and `\s+;\s*$`
unfoldable pub semicolon_behind_colon_pattern : Regex
semicolon_behind_colon_pattern = char b':' & star space & char b';' & star space & line_end

unfoldable pub only_semicolon_pattern : Regex
only_semicolon_pattern = line_start & star space & char b';' & star space & line_end

unfoldable pub spaced_semicolon_pattern : Regex
spaced_semicolon_pattern = plus space & char b';' & star space & line_end

unfoldable pub check_semicolon : Text → ℕ → List Diagnostic
unfolding semicolon_behind_colon_pattern only_semicolon_pattern spaced_semicolon_pattern
check_semicolon line linenum =
    let semicolon = report linenum (codes "whitespace/semicolon") 5 in
    if contains semicolon_behind_colon_pattern line
    then semicolon (codes "Semicolon defining empty statement. Use {} instead.") ∷ []
    else if contains only_semicolon_pattern line
    then semicolon (
        codes "Line contains only semicolon. If this should be an empty statement, use {} instead.")
      ∷ []
    else if contains spaced_semicolon_pattern line && not (contains (whole_word (codes "for")) line)
    then semicolon (
        codes
          "Extra space before last semicolon. If this should be an empty statement, use {} instead.")
      ∷ []
    else []

-- CheckBracesSpacing, on clean_lines.elided and the stack of blocks
unfoldable pub check_braces_spacing : List Text → ℕ → List Block → List Diagnostic
unfolding check_brace check_semicolon
check_braces_spacing elided linenum stack =
    let line = get_or elided linenum [] in
    check_brace elided linenum stack
    ++ ((if contains (literal (codes "}else")) line
          then report linenum (codes "whitespace/braces") 5 (codes "Missing space before else") ∷ []
          else [])
        ++ check_semicolon line linenum)
