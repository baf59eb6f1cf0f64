-- ===== src/Style/Bodies.antt =====
-- CheckBraces of cpplint.py, with its check of an if or else body that has no braces.
use myframe.Common.{
  ℕ, suc, ◌+◌, ◌-◌, Bool, not, ◌&&◌, ◌||◌, Option, none, some, List, [], ◌∷◌, ◌++◌, ltb, ◌==◌,
  if◌then◌else◌, length, drop, get_or,
}
use myframe.Text.{Text, codes, has_char, find}
use myframe.Regex.{
  Regex, eps, alt, star, group, line_start, line_end, word_boundary, ◌&◌, Found, search_pattern,
  matches, is_some,
}
use myframe.Regex.Classes.{char, literal, one_of, none_of, one_of_or_space, space, opt}
use myframe.Categories.{Diagnostic}
use myframe.Blocks.{report}
use myframe.FileChecks.{get_indent_level}
use myframe.Brackets.{Place, close_expression}
use myframe.Common.Int.{ℤ}
use myframe.Style.Else.{
  check_brace_alone, check_else_alone, check_both_sides, check_same_line, line_from,
  directive_line_pattern,
}

abbrev if_start : Regex
if_start =
    literal (codes "if")
    & star space
    & group 2 (alt eps (literal (codes "constexpr")))
    & star space
    & char b'('

-- `\b(if\s*(|constexpr)\s*\(|else\b)`, and `\bif\s*(|constexpr)\s*\(`
unfoldable pub if_else_pattern : Regex
if_else_pattern = word_boundary & group 1 (alt if_start (literal (codes "else") & word_boundary))

unfoldable pub if_condition_pattern : Regex
if_condition_pattern = word_boundary & if_start

-- match.end()
abbrev end_of : Found → ℕ
end_of m = m.at + length m.text

-- Where the body begins: behind the condition of an `if`, or else behind the `else`
unfoldable pub body_place : List Text → ℕ → Found → Option Found → Option Place
unfolding close_expression
body_place elided linenum if_else none =
    some
      (record { line = get_or elided linenum []; linenum = linenum; pos = some (end_of if_else) })
body_place elided linenum if_else (some m) = close_expression elided linenum (end_of m - 1)

-- `\s*{` and `\s*$`
unfoldable pub open_brace_pattern : Regex
open_brace_pattern = star space & char b'{'

unfoldable pub blank_rest_pattern : Regex
blank_rest_pattern = star space & line_end

-- A brace opens the body, on its line or on the next one.
unfoldable pub opens_brace : List Text → Place → Bool
unfolding open_brace_pattern blank_rest_pattern line_from
opens_brace elided place =
    let fragment = line_from place.line place.pos in
    matches open_brace_pattern fragment
    || (matches blank_rest_pattern fragment
        && (ltb (suc place.linenum) (length elided)
            && matches open_brace_pattern (get_or elided (suc place.linenum) [])))

-- The first line from number `n` on that has a semicolon, where `fragment` is what is left of that line
unfoldable pub semicolon_line : ℕ → Text → List Text → Option ℕ
unfolding has_char
semicolon_line n fragment [] = if has_char fragment b';' then some n else none
semicolon_line n fragment (line ∷ rest) =
    let later = semicolon_line (suc n) line rest in if has_char fragment b';' then some n else later

-- `;[\s}]*(\\?)$`, and `^[^{};]*\[[^\[\]]*\][^{}]*\{[^{}]*\}\s*\)*[;,]\s*$`
unfoldable pub end_of_statement_pattern : Regex
end_of_statement_pattern =
    char b';' & star (one_of_or_space (codes "}")) & group 1 (opt (char 92)) & line_end

unfoldable pub lambda_pattern : Regex
lambda_pattern =
    line_start
    & star (none_of (codes "{};"))
    & char b'['
    & star (none_of (codes "[]"))
    & char b']'
    & star (none_of (codes "{}"))
    & char b'{'
    & star (none_of (codes "{}"))
    & char b'}'
    & star space
    & star (char b')')
    & one_of (codes ";,")
    & star space
    & line_end

-- `\s*else\b`
unfoldable pub next_else_pattern : Regex
next_else_pattern = star space & literal (codes "else") & word_boundary

abbrev require_braces : ℕ → Text → List Diagnostic
require_braces linenum message = report linenum (codes "readability/braces") 4 message ∷ []

abbrev many_statements : ℕ → List Diagnostic
many_statements linenum =
    require_braces linenum (codes "If/else bodies with multiple statements require braces")

-- The line behind the body
unfoldable pub check_next_line : ℕ → Bool → ℕ → Text → List Diagnostic
unfolding next_else_pattern get_indent_level
check_next_line if_indent is_if linenum next_line =
    let next_indent = get_indent_level next_line in
    if is_if && (matches next_else_pattern next_line && not (next_indent == if_indent))
    then require_braces linenum (
        codes "Else clause should be indented at the same level as if. "
        ++ codes "Ambiguous nested if/else chains require braces.")
    else if ltb if_indent next_indent
    then many_statements linenum
    else []

-- From the line with the first semicolon on, of which it is found again from the line's start
unfoldable pub check_statement_end : List Text → ℕ → ℕ → Bool → ℕ → List Diagnostic
unfolding find end_of_statement_pattern lambda_pattern check_next_line
check_statement_end elided n if_indent is_if linenum =
    let endline = get_or elided n [] in
    elim (find endline (codes ";")) as (λ _. List Diagnostic) [
      | none ↦ []
      | some p ↦
          if not (matches end_of_statement_pattern (drop p endline))
          then (if matches lambda_pattern endline then [] else many_statements linenum)
          else if ltb (suc n) (length elided)
          then check_next_line if_indent is_if linenum (get_or elided (suc n) [])
          else []
    ]

-- A body without braces; where its place has no position, its line is the one behind the last.
unfoldable pub check_body : List Text → ℕ → Bool → Place → List Diagnostic
unfolding opens_brace semicolon_line check_statement_end
check_body elided linenum is_if place =
    let if_indent = get_indent_level (get_or elided linenum []) in
    if opens_brace elided place || not (ltb place.linenum (length elided))
    then []
    else elim (semicolon_line place.linenum (line_from (get_or elided place.linenum []) place.pos)
          (drop (suc place.linenum) elided))
        as (λ _. List Diagnostic) [
          | none ↦ []
          | some n ↦ check_statement_end elided n if_indent is_if linenum
        ]

unfoldable pub check_bodies : List Text → ℕ → List Diagnostic
unfolding if_else_pattern if_condition_pattern directive_line_pattern body_place check_body
check_bodies elided linenum =
    let line = get_or elided linenum [] in
    let if_match = search_pattern if_condition_pattern line in
    elim (search_pattern if_else_pattern line) [
      | none ↦ []
      | some m ↦
          if matches directive_line_pattern line
          then []
          else elim (body_place elided linenum m if_match) [
            | none ↦ []
            | some place ↦ check_body elided linenum (is_some if_match) place
          ]
    ]

-- CheckBraces, on clean_lines.elided; `width` is GetLineWidth.
unfoldable pub check_braces : (Text → ℕ) → ℤ → List Text → ℕ → List Diagnostic
unfolding check_brace_alone check_else_alone check_both_sides check_same_line check_bodies
check_braces width line_length elided linenum =
    check_brace_alone width line_length elided linenum
    ++ (check_else_alone elided linenum
        ++ (check_both_sides elided linenum
            ++ (check_same_line (get_or elided linenum []) linenum ++ check_bodies elided linenum)))
