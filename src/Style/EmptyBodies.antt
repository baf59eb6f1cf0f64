-- ===== src/Style/EmptyBodies.antt =====
-- CheckEmptyBlockBody of cpplint.py.
use myframe.Common.{
  ℕ, suc, ◌+◌, ◌-◌, Bool, true, false, not, ◌||◌, Option, none, some, List, [], ◌∷◌, ◌++◌, ltb,
  ◌==◌, if◌then◌else◌, take, drop, get_or, map, ◌>>=◌,
}
use myframe.Text.{Text, codes, text_eq, find, starts_with, join}
use myframe.Regex.{
  Regex, star, group, line_start, line_end, ahead, not_ahead, ◌&◌, group_text, match_pattern,
  contains,
}
use myframe.Regex.Classes.{char, literal, space, one_text}
use myframe.Categories.{Diagnostic}
use myframe.Blocks.{report}
use myframe.Cleanse.Lines.{CleansedLines}
use myframe.Brackets.{Place, close_expression}
use myframe.Cleanse.Lines.{cleanse_comments}

-- `\s*(for|while|if)\s*\(`
unfoldable pub loop_pattern : Regex
loop_pattern =
    star space
    & group 1 (one_text (codes "for" ∷ codes "while" ∷ codes "if" ∷ []))
    & star space
    & char b'('

unfoldable pub check_only_semicolon : Text → Place → ℕ → List Diagnostic
unfolding text_eq starts_with
check_only_semicolon keyword place end_pos =
    if not (starts_with (drop end_pos place.line) (codes ";"))
    then []
    else if text_eq keyword (codes "if")
    then report place.linenum (codes "whitespace/empty_conditional_body") 5
        (codes "Empty conditional bodies should use {}")
      ∷ []
    else report place.linenum (codes "whitespace/empty_loop_body") 5
        (codes "Empty loop bodies should use {} or continue")
      ∷ []

-- `^\s*\{`, and `^(?!\s*$)`
unfoldable pub opening_pattern : Regex
opening_pattern = line_start & star space & char b'{'

unfoldable pub not_blank_pattern : Regex
not_blank_pattern = line_start & not_ahead (star space & line_end)

-- The first line whose text begins with a brace, behind blank ones; the first text is `fragment`, that
-- of line `n`. With the line comes its fragment.
unfoldable pub opening_line : ℕ → Text → List Text → Option (ℕ × Text)
unfolding opening_pattern not_blank_pattern
opening_line n fragment [] = if contains opening_pattern fragment then some (n, fragment) else none
opening_line n fragment (line ∷ rest) =
    let later = opening_line (suc n) line rest in
    if contains opening_pattern fragment
    then some (n, fragment)
    else if contains not_blank_pattern fragment
    then none
    else later

-- The text between the braces. A body of several lines is joined by newlines, the rest of its first
-- line character by character.
unfoldable pub body_text : CleansedLines → ℕ → ℕ → Place → ℕ → Text
unfolding join
body_text clean opening_linenum opening_pos closing closing_pos =
    let first = drop (suc opening_pos) (get_or clean.elided opening_linenum []) in
    let inner = drop (suc opening_linenum) (take closing.linenum clean.raw_lines) in
    let last = take (closing_pos - 1) (get_or clean.elided closing.linenum []) in
    if ltb opening_linenum closing.linenum
    then join (10 ∷ []) (map (λ c. c ∷ []) first ++ (inner ++ last ∷ []))
    else take (closing_pos - 1 - suc opening_pos) first

-- _EMPTY_CONDITIONAL_BODY_PATTERN: `^\s*$`
unfoldable pub empty_body_pattern : Regex
empty_body_pattern = line_start & star space & line_end

-- `^(?=\s*else)`
unfoldable pub else_first_pattern : Regex
else_first_pattern = line_start & ahead (star space & literal (codes "else"))

-- The first text that is not blank, of which `fragment` is the first, begins with an else.
unfoldable pub else_follows : Text → List Text → Bool
unfolding else_first_pattern empty_body_pattern
else_follows fragment [] = contains else_first_pattern fragment
else_follows fragment (line ∷ rest) =
    let later = else_follows line rest in
    if contains else_first_pattern fragment
    then true
    else if contains empty_body_pattern fragment
    then later
    else false

-- The body between a brace at `opening_pos` and its partner
unfoldable pub check_if_body : CleansedLines → ℕ → ℕ → ℕ → List Diagnostic
unfolding close_expression text_eq cleanse_comments body_text empty_body_pattern else_follows
check_if_body clean end_linenum opening_linenum opening_pos =
    let raw = get_or clean.raw_lines opening_linenum [] in
    elim (close_expression clean.elided opening_linenum opening_pos) [
      | none ↦ []
      | some closing ↦ elim closing.pos [
        | none ↦ []
        | some closing_pos ↦
            if not (text_eq raw (cleanse_comments raw))
              || (not (
                    contains empty_body_pattern
                      (body_text clean opening_linenum opening_pos closing closing_pos))
                  || else_follows (drop closing_pos closing.line)
                      (drop (suc closing.linenum) clean.elided))
            then []
            else report end_linenum (codes "whitespace/empty_if_body") 4
                (codes "If statement had no body and no else clause")
              ∷ []
      ]
    ]

-- From the end of the condition, at `end_pos`
unfoldable pub check_empty_if : CleansedLines → Place → ℕ → List Diagnostic
unfolding opening_line find check_if_body
check_empty_if clean place end_pos =
    elim (opening_line place.linenum (drop end_pos place.line)
      (drop (suc place.linenum) clean.elided)) [
        | none ↦ []
        | some (n, fragment) ↦ elim (find fragment (codes "{")) [
          | none ↦ []
          | some p ↦
              check_if_body clean place.linenum n (if n == place.linenum then p + end_pos else p)
        ]
      ]

-- CheckEmptyBlockBody
unfoldable pub check_empty_block_body : CleansedLines → ℕ → List Diagnostic
unfolding loop_pattern find close_expression check_only_semicolon check_empty_if text_eq
check_empty_block_body clean linenum =
    let line = get_or clean.elided linenum [] in
    elim (match_pattern loop_pattern line) [
      | none ↦ []
      | some m ↦ elim (find line (codes "(") >>= λ p. close_expression clean.elided linenum p) [
        | none ↦ []
        | some place ↦ elim place.pos [
          | none ↦ []
          | some end_pos ↦
              check_only_semicolon (group_text 1 m) place end_pos
              ++ (if text_eq (group_text 1 m) (codes "if")
                  then check_empty_if clean place end_pos
                  else [])
        ]
      ]
    ]
