-- ===== src/Style/Semicolons.antt =====
-- CheckTrailingSemicolon of cpplint.py, which hands lines to ParseNolintSuppressions before it reports.
use myframe.Common.{
  ℕ, ◌-◌, Bool, false, not, ◌&&◌, ◌||◌, Option, none, some, List, [], ◌∷◌, ltb, leb, ◌==◌,
  if◌then◌else◌, length, take, drop, get_or, ◌>>=◌,
}
use myframe.Text.{Text, codes, has_char, rfind, is_one_of}
use myframe.Regex.{
  Regex, chr, alt, star, group, line_start, line_end, word_boundary, ◌&◌, Found, group_text,
  match_pattern, search_pattern, matches, contains,
}
use myframe.Regex.Classes.{char, literal, one_of, space, dot, plus, one_text}
use myframe.Blocks.{report}
use myframe.Cleanse.Lines.{CleansedLines}
use myframe.Brackets.{Place, close_expression}
use myframe.Brackets.Reverse.{reverse_close_expression}
use myframe.HeaderGuard.{Action, parse_nolint}
use myframe.HeaderGuard as HeaderGuard
use myframe.Style.Sections.{previous_line}

-- `^(.*\)\s*)\{`
unfoldable pub brace_behind_parenthesis_pattern : Regex
brace_behind_parenthesis_pattern =
    line_start & group 1 (star dot & char b')' & star space) & char b'{'

-- A letter A to Z, a digit or `_`
abbrev macro_char : ℕ → Bool
macro_char c = (leb b'A' c && leb c b'Z') || (c == b'_')

-- `\b([A-Z_][A-Z0-9_]*)\s*$`, and `^(.*\])\s*$`
unfoldable pub macro_name_pattern : Regex
macro_name_pattern =
    word_boundary
    & group 1 (chr macro_char & star (chr (λ c. macro_char c || has_char (codes "0123456789") c)))
    & star space
    & line_end

unfoldable pub bracket_end_pattern : Regex
bracket_end_pattern = line_start & group 1 (star dot & char b']') & star space & line_end

-- `\boperator\s*\[\s*\]`
unfoldable pub index_operator_pattern : Regex
index_operator_pattern =
    word_boundary & literal (codes "operator") & star space & char b'[' & star space & char b']'

-- `\b(?:struct|union)\s+alignas\s*$`, `\bdecltype$`, and `\s+=\s*$`
unfoldable pub alignas_pattern : Regex
alignas_pattern =
    word_boundary
    & one_text (codes "struct" ∷ codes "union" ∷ [])
    & plus space
    & literal (codes "alignas")
    & star space
    & line_end

unfoldable pub decltype_pattern : Regex
decltype_pattern = word_boundary & literal (codes "decltype") & line_end

unfoldable pub assigned_pattern : Regex
assigned_pattern = plus space & char b'=' & star space & line_end

-- The macros behind which a block needs no semicolon
unfoldable pub block_macros : List Text
block_macros =
    codes "TEST"
    ∷ codes "TEST_F"
    ∷ codes "MATCHER"
    ∷ codes "MATCHER_P"
    ∷ codes "TYPED_TEST"
    ∷ codes "EXCLUSIVE_LOCKS_REQUIRED"
    ∷ codes "SHARED_LOCKS_REQUIRED"
    ∷ codes "LOCKS_EXCLUDED"
    ∷ codes "INTERFACE_DEF"
    ∷ []

-- What stands before the opening parenthesis shows that the braces are no block of a function.
unfoldable pub is_no_block : Text → Bool
unfolding macro_name_pattern bracket_end_pattern index_operator_pattern alignas_pattern
    decltype_pattern assigned_pattern block_macros is_one_of
is_no_block line_prefix =
    let macro = elim (search_pattern macro_name_pattern line_prefix) as (λ _. Bool) [
      | none ↦ false
      | some m ↦ not (is_one_of (group_text 1 m) block_macros)
    ] in
    let func = elim (match_pattern bracket_end_pattern line_prefix) as (λ _. Bool) [
      | none ↦ false
      | some m ↦ not (contains index_operator_pattern (group_text 1 m))
    ] in
    macro
    || (func
        || (contains alignas_pattern line_prefix
            || (contains decltype_pattern line_prefix || contains assigned_pattern line_prefix)))

-- `\]\s*$`
unfoldable pub lambda_end_pattern : Regex
lambda_end_pattern = char b']' & star space & line_end

-- The match of the first pattern is dropped: by the text before the parenthesis that is closed, or by
-- the line before.
unfoldable pub is_dropped : List Text → Option Place → Bool
unfolding is_no_block lambda_end_pattern
is_dropped elided none = false
is_dropped elided (some place) =
    elim place.pos as (λ _. Bool) [ none ↦ false | some p ↦ is_no_block (take p place.line) ]
    || (ltb 1 place.linenum && contains lambda_end_pattern (get_or elided (place.linenum - 1) []))

-- `^(.*(?:else|\)\s*const)\s*)\{`, `[;{}]\s*$`, and `^(\s*)\{`
unfoldable pub brace_behind_else_pattern : Regex
brace_behind_else_pattern =
    line_start
    & group 1 (
        star dot
        & alt (literal (codes "else")) (char b')' & star space & literal (codes "const"))
        & star space)
    & char b'{'

unfoldable pub end_of_block_pattern : Regex
end_of_block_pattern = one_of (codes ";{}") & star space & line_end

unfoldable pub brace_first_pattern : Regex
brace_first_pattern = line_start & group 1 (star space) & char b'{'

-- The opening brace of a block behind which no semicolon belongs, by its position in the line
unfoldable pub block_brace : List Text → ℕ → Option ℕ
unfolding brace_behind_parenthesis_pattern rfind reverse_close_expression is_dropped
    brace_behind_else_pattern end_of_block_pattern brace_first_pattern
block_brace elided linenum =
    let line = get_or elided linenum [] in
    let place_of = λ (m : Found). length (group_text 1 m) in
    elim (match_pattern brace_behind_parenthesis_pattern line) [
      | some m ↦
          if is_dropped elided
            (rfind (group_text 1 m) b')' >>= λ p. reverse_close_expression elided linenum p)
          then none
          else some (place_of m)
      | none ↦ elim (match_pattern brace_behind_else_pattern line) [
        | some m ↦ some (place_of m)
        | none ↦
            if contains end_of_block_pattern (previous_line elided linenum)
            then (match_pattern brace_first_pattern line >>= λ m. some (place_of m))
            else none
      ]
    ]

-- `^\s*;`
unfoldable pub semicolon_first_pattern : Regex
semicolon_first_pattern = line_start & star space & char b';'

-- CheckTrailingSemicolon. The line before line 0 is not there; line 0 of a file is a comment, in which
-- no brace stands.
unfoldable pub check_trailing_semicolon : CleansedLines → ℕ → List Action
unfolding block_brace semicolon_first_pattern close_expression
check_trailing_semicolon clean linenum =
    elim (block_brace clean.elided linenum >>= λ p. close_expression clean.elided linenum p) [
      | none ↦ []
      | some place ↦ elim place.pos [
        | none ↦ []
        | some end_pos ↦
            let n = place.linenum in
            if matches semicolon_first_pattern (drop end_pos place.line)
            then parse_nolint (get_or clean.raw_lines (n - 1) []) (n - 1)
              ∷ (parse_nolint (get_or clean.raw_lines n []) n
                  ∷ (HeaderGuard.Action.report (
                        report n (codes "readability/braces") 4
                          (codes "You don't need a ; after a }"))
                      ∷ []))
            else []
      ]
    ]
