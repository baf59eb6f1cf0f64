-- ===== src/Nesting/Templates.antt =====
-- NestingState.InTemplateArgumentList of cpplint.py.
pub mod Onward
pub mod Ends
use myframe.Common.{
  ℕ, zero, suc, ◌+◌, ◌-◌, Bool, true, false, not, Option, none, some, List, [], ◌∷◌, leb, ◌==◌,
  if◌then◌else◌, length, drop, get_or,
}
use myframe.Text.{Text, codes, has_char}
use myframe.Regex.{Regex, star, group, line_start, ◌&◌, group_text, match_pattern}
use myframe.Regex.Classes.{none_of, dot}
use myframe.Brackets.{Place, close_expression}
use myframe.Cleanse.Lines.{CleansedLines}

-- `^[^{};=\[\]\.<>]*(.)`
unfoldable pub template_token_pattern : Regex
template_token_pattern = line_start & star (none_of (codes "{};=[].<>")) & group 1 dot

-- What a round of the loop does: it answers, or it goes on at a line and a position.
pub data AfterToken : Type 0 where
  answer : Bool → AfterToken
  go_on : ℕ → ℕ → AfterToken

-- At a `<`: behind the `>` that closes it, if there is one
unfoldable pub behind_template : Option Place → AfterToken
behind_template none = answer false
behind_template (some place) = elim place.pos [
  | none ↦ answer false
  | some end_pos ↦ go_on place.linenum end_pos
]

-- At a token, whose end is `pos` in the line of length `n`
unfoldable pub at_token : List Text → ℕ → ℕ → ℕ → ℕ → AfterToken
unfolding behind_template close_expression
at_token elided linenum n pos token =
    if has_char (codes "{};") token
    then answer false
    else if has_char (codes ">=[].") token
    then answer true
    else if not (token == b'<')
    then (if leb n (pos + 1) then go_on (suc linenum) 0 else go_on linenum (pos + 1))
    else behind_template (close_expression elided linenum (pos - 1))

-- A round at position `pos` of `line`
unfoldable pub template_round : List Text → ℕ → Text → ℕ → AfterToken
unfolding template_token_pattern at_token
template_round elided linenum line pos =
    elim (match_pattern template_token_pattern (drop pos line)) [
      | none ↦ go_on (suc linenum) 0
      | some m ↦
          at_token elided linenum (length line) (pos + length m.text) (get_or (group_text 1 m) 0 0)
    ]

-- The loop; `none` tells that the fuel ran out.
unfoldable pub template_from : ℕ → List Text → ℕ → ℕ → Option Bool
unfolding template_round
template_from zero elided linenum pos = none
template_from (suc fuel) elided linenum pos =
    let next = template_round elided linenum (get_or elided linenum []) pos in
    if leb (length elided) linenum then some false else elim next [
      | answer b ↦ some b
      | go_on linenum' pos' ↦ template_from fuel elided linenum' pos'
    ]

-- A round for each character and for each end of a line
abbrev pub rounds_of : List Text → ℕ
rounds_of [] = 1
rounds_of (line ∷ rest) = suc (length line) + rounds_of rest

-- InTemplateArgumentList(clean_lines, linenum, pos)
unfoldable pub in_template_argument_list : CleansedLines → ℕ → ℕ → Bool
unfolding template_from
in_template_argument_list clean linenum pos =
    elim (template_from (rounds_of clean.elided) clean.elided linenum pos) [
      | none ↦ false
      | some b ↦ b
    ]
