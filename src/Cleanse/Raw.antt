-- ===== src/Cleanse/Raw.antt =====
-- CleanseRawStrings of cpplint.py: raw strings become empty strings.
pub mod Shorter
pub mod Settled
use myframe.Common.{
  ℕ, zero, suc, ◌+◌, true, false, Option, none, some, List, [], ◌∷◌, ◌++◌, if◌then◌else◌, length,
  drop,
}
use myframe.Text.{Text, codes, has_char, is_space, find}
use myframe.Regex.{
  Regex, chr, alt, star, lazy_star, group, line_start, line_end, word_boundary, ◌&◌, Found,
  group_text, match_pattern, matches,
}
use myframe.Regex.Classes.{char, literal, none_of, dot, space, non_space, alts}

-- `[^\s\\()]`
abbrev pub delimiter_char : Regex
delimiter_char =
    chr (λ c. if is_space c then false else if has_char (92 ∷ 40 ∷ 41 ∷ []) c then false else true)

-- `(?:R|u8R|uR|UR|LR)`
abbrev pub raw_prefix : Regex
raw_prefix = alts (
    literal (codes "R")
    ∷ literal (codes "u8R")
    ∷ literal (codes "uR")
    ∷ literal (codes "UR")
    ∷ literal (codes "LR")
    ∷ [])

-- `^(.*?)\b(?:R|u8R|uR|UR|LR)"([^\s\\()]*)\((.*)$`
unfoldable pub raw_start_pattern : Regex
raw_start_pattern =
    line_start
    & group 1 (lazy_star dot)
    & word_boundary
    & raw_prefix
    & char 34
    & group 2 (star delimiter_char)
    & char b'('
    & group 3 (star dot)
    & line_end

-- A literal between quotes `q`: `'(\\.|[^\'])*\'` and the same with double quotes
abbrev pub quoted : ℕ → ℕ → Regex
quoted n q = char q & star (group n (alt (char 92 & dot) (none_of (q ∷ [])))) & char q

-- `^([^\'"]|\'(\\.|[^\'])*\'|"(\\.|[^"])*")*//`: a comment begins behind whole literals
unfoldable pub comment_prefix_pattern : Regex
comment_prefix_pattern =
    line_start
    & star (group 1 (alts (none_of (39 ∷ 34 ∷ []) ∷ quoted 2 39 ∷ quoted 3 34 ∷ [])))
    & literal (codes "//")

-- `^(\s*)\S`
unfoldable pub leading_space_pattern : Regex
leading_space_pattern = line_start & group 1 (star space) & non_space

-- One round of the loop over the raw strings that begin in a line: there is none, one begins and
-- does not end, with its delimiter, or one was replaced.
pub data RawMove : Type 0 where
  plain : RawMove
  opened : Text → Text → RawMove
  replaced : Text → RawMove

-- The delimiter that ends a raw string
abbrev pub delimiter_of : Text → Text
delimiter_of name = b')' ∷ (name ++ 34 ∷ [])

abbrev pub empty_string : Text
empty_string = 34 ∷ 34 ∷ []

-- The end of the raw string, if it is found in `tail`
unfoldable pub replaced_at : Text → Text → Text → Option ℕ → RawMove
replaced_at head delimiter tail none = opened (head ++ empty_string) delimiter
replaced_at head delimiter tail (some end) =
    replaced (head ++ (empty_string ++ drop (end + length delimiter) tail))

unfoldable pub replace_found : Text → Text → Text → RawMove
unfolding find replaced_at
replace_found head delimiter tail = replaced_at head delimiter tail (find tail delimiter)

-- What is done with a match
unfoldable pub raw_of : Option Found → RawMove
unfolding comment_prefix_pattern replace_found
raw_of none = plain
raw_of (some m) =
    if matches comment_prefix_pattern (group_text 1 m)
    then plain
    else replace_found (group_text 1 m) (delimiter_of (group_text 2 m)) (group_text 3 m)

unfoldable pub raw_move : Text → RawMove
unfolding raw_start_pattern raw_of
raw_move line = raw_of (match_pattern raw_start_pattern line)

-- while delimiter is None: the line, and the delimiter that is looked for behind it. Each round that
-- goes on leaves a shorter line.
unfoldable pub replace_raw : ℕ → Text → Text × Option Text
unfolding raw_move
replace_raw zero line = (line, none)
replace_raw (suc fuel) line = elim (raw_move line) [
  | plain ↦ (line, none)
  | opened line' delimiter ↦ (line', some delimiter)
  | replaced line' ↦ replace_raw fuel line'
]

-- The line behind the end of a raw string, which was found at `end`
unfoldable pub resume : Text → ℕ → Text → Text
unfolding leading_space_pattern
resume delimiter end line =
    let space : Text = elim (match_pattern leading_space_pattern line) [
      | none ↦ []
      | some m ↦ group_text 1 m
    ] in
    space ++ (empty_string ++ drop (end + length delimiter) line)

-- A line inside a raw string, with the place of the delimiter in it
unfoldable pub inside_raw : Text → Text → Option ℕ → Text × Option Text
unfolding replace_raw resume
inside_raw delimiter line none = (empty_string, some delimiter)
inside_raw delimiter line (some end) =
    let line' = resume delimiter end line in replace_raw (length line') line'

-- One line, from the delimiter that is looked for in front of it
unfoldable pub cleanse_raw_line : Option Text → Text → Text × Option Text
unfolding inside_raw find
cleanse_raw_line none line = replace_raw (length line) line
cleanse_raw_line (some delimiter) line = inside_raw delimiter line (find line delimiter)

unfoldable pub cleanse_raw_from : Option Text → List Text → List Text
unfolding cleanse_raw_line
cleanse_raw_from delimiter [] = []
cleanse_raw_from delimiter (line ∷ rest) =
    let (line', delimiter') = cleanse_raw_line delimiter line in
    line' ∷ cleanse_raw_from delimiter' rest

-- CleanseRawStrings(raw_lines)
unfoldable pub cleanse_raw_strings : List Text → List Text
unfolding cleanse_raw_from
cleanse_raw_strings raw_lines = cleanse_raw_from none raw_lines
