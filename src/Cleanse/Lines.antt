-- ===== src/Cleanse/Lines.antt =====
-- IsCppString, CleanseComments and class CleansedLines of cpplint.py.
use myframe.Common.{
  ℕ, zero, suc, ◌+◌, ◌%◌, ◌≡◌, refl, ap, ◌∙◌, Bool, not, none, some, List, [], ◌∷◌, ◌++◌, map, ◌==◌,
  if◌then◌else◌, length, take, drop,
}
use myframe.Text.{Text, codes, text_eq, replace, count, find, rstrip}
use myframe.Regex.{
  Regex, chr, alt, star, group, line_start, line_end, word_boundary, ahead, not_ahead, ◌&◌,
  match_pattern, group_text, matches, contains, replace_all, is_word,
}
use myframe.Regex.Classes.{char, literal, one_of, none_of, dot, space, non_word, plus, opt, alts}
use myframe.Cleanse.Raw.{cleanse_raw_strings}
use myframe.Cleanse.Raw.Settled.{length-cleanse_raw_strings}

-- IsCppString(line). The difference of the counts, which may be negative, is odd exactly when the
-- sum is.
unfoldable pub is_cpp_string : Text → Bool
unfolding replace count
is_cpp_string line =
    let line' = replace (92 ∷ 92 ∷ []) (codes "XX") line in
    (count (34 ∷ []) line' + count (92 ∷ 34 ∷ []) line' + count (39 ∷ 34 ∷ 39 ∷ []) line') % 2 == 1

-- _RE_PATTERN_C_COMMENTS: `/\*(?:[^*]|\*(?!/))*\*/`
unfoldable pub c_comment_pattern : Regex
c_comment_pattern =
    literal (codes "/*")
    & star (alt (none_of (codes "*")) (char b'*' & not_ahead (char b'/')))
    & literal (codes "*/")

-- _RE_PATTERN_CLEANSE_LINE_C_COMMENTS
unfoldable pub cleanse_comments_pattern : Regex
unfolding c_comment_pattern
cleanse_comments_pattern = group 1 (
    alts (
      (star space & c_comment_pattern & star space & line_end)
      ∷ (c_comment_pattern & plus space)
      ∷ (plus space & c_comment_pattern & ahead non_word)
      ∷ c_comment_pattern
      ∷ []))

-- The line without its //-comment
unfoldable pub cut_comment : Text → Text
cut_comment line = elim (find line (codes "//")) [
  | none ↦ line
  | some commentpos ↦
      if not (is_cpp_string (take commentpos line)) then rstrip (take commentpos line) else line
]

-- CleanseComments(line)
unfoldable pub cleanse_comments : Text → Text
unfolding cut_comment cleanse_comments_pattern
cleanse_comments line = replace_all cleanse_comments_pattern [] (cut_comment line)

-- _RE_PATTERN_INCLUDE: `^\s*#\s*include\s*([<"])([^>"]*)[>"].*$`
unfoldable pub include_pattern : Regex
include_pattern =
    line_start
    & star space
    & char b'#'
    & star space
    & literal (codes "include")
    & star space
    & group 1 (one_of (b'<' ∷ 34 ∷ []))
    & group 2 (star (none_of (b'>' ∷ 34 ∷ [])))
    & one_of (b'>' ∷ 34 ∷ [])
    & star dot
    & line_end

abbrev pub digit : Regex
digit = one_of (codes "0123456789")

abbrev pub hex_digit : Regex
hex_digit = one_of (codes "0123456789abcdefABCDEF")

-- _RE_PATTERN_CLEANSE_LINE_ESCAPES: `\\([abfnrtv?"\\\']|\d+|x[0-9a-fA-F]+)`
unfoldable pub escape_pattern : Regex
escape_pattern =
    char 92
    & group 1 (
        alts (
          one_of (codes "abfnrtv?" ++ 34 ∷ 92 ∷ 39 ∷ [])
          ∷ plus digit
          ∷ (char b'x' & plus hex_digit)
          ∷ []))

-- `\b(?:0[bBxX]?|[1-9])[0-9a-fA-F]*$`: a number ends here
unfoldable pub number_pattern : Regex
number_pattern =
    word_boundary
    & alt (char b'0' & opt (one_of (codes "bBxX"))) (one_of (codes "123456789"))
    & star hex_digit
    & line_end

-- `^([^\'"]*)([\'"])(.*)$`: the first quote character
unfoldable pub quote_pattern : Regex
quote_pattern =
    line_start
    & group 1 (star (none_of (39 ∷ 34 ∷ [])))
    & group 2 (one_of (39 ∷ 34 ∷ []))
    & group 3 (star dot)
    & line_end

-- `^((?:\'?[0-9a-zA-Z_])*)(.*)$`: the rest of a number with separators
unfoldable pub literal_pattern : Regex
literal_pattern =
    line_start & group 1 (star (opt (char 39) & chr is_word)) & group 2 (star dot) & line_end

-- One round of the loop of _CollapseStrings: it ends with the text that is left, or it appends a
-- text and goes on with another.
pub data Collapse : Type 0 where
  last : Collapse
  more : Text → Text → Collapse

-- Up to the closing quote `q`, what is between goes.
abbrev pub collapse_to : ℕ → Text → Text → Collapse
collapse_to q head tail = elim (find tail (q ∷ [])) [
  | none ↦ last
  | some second_quote ↦ more (head ++ q ∷ q ∷ []) (drop (second_quote + 1) tail)
]

-- A single quote behind a number separates its digits.
unfoldable pub collapse_number : Text → Text → Collapse
unfolding literal_pattern replace
collapse_number head tail = elim (match_pattern literal_pattern (39 ∷ tail)) [
  | none ↦ last
  | some m ↦ more (head ++ replace (39 ∷ []) [] (group_text 1 m)) (group_text 2 m)
]

unfoldable pub collapse_move : Text → Collapse
unfolding quote_pattern number_pattern collapse_number find
collapse_move elided = elim (match_pattern quote_pattern elided) [
  | none ↦ last
  | some m ↦
      let head = group_text 1 m in
      let tail = group_text 3 m in
      if text_eq (group_text 2 m) (34 ∷ [])
      then collapse_to 34 head tail
      else if contains number_pattern head
      then collapse_number head tail
      else collapse_to 39 head tail
]

-- The loop, whose rounds each leave a shorter text
unfoldable pub collapse_from : ℕ → Text → Text → Text
unfolding collapse_move
collapse_from zero collapsed elided = collapsed ++ elided
collapse_from (suc fuel) collapsed elided = elim (collapse_move elided) [
  | last ↦ collapsed ++ elided
  | more t rest ↦ collapse_from fuel (collapsed ++ t) rest
]

-- _CollapseStrings(elided)
unfoldable pub collapse_strings : Text → Text
unfolding collapse_from include_pattern escape_pattern
collapse_strings elided =
    let bare = replace_all escape_pattern [] elided in
    if matches include_pattern elided then elided else collapse_from (length bare) [] bare

-- The four copies of the lines
pub record CleansedLines : Type 0 where
  pub elided : List Text
  pub lines : List Text
  pub raw_lines : List Text
  pub num_lines : ℕ
  pub lines_without_raw_strings : List Text

-- CleansedLines(lines)
unfoldable pub cleansed_lines : List Text → CleansedLines
unfolding cleanse_raw_strings cleanse_comments collapse_strings
cleansed_lines raw =
    let bare = cleanse_raw_strings raw in
    record {
      elided = map (λ line. cleanse_comments (collapse_strings line)) bare;
      lines = map cleanse_comments bare;
      raw_lines = raw;
      num_lines = length raw;
      lines_without_raw_strings = bare;
    }

length-map : (f : Text → Text) (ls : List Text) → length (map f ls) ≡ length ls
length-map f [] = refl
length-map f (l ∷ ls) = ap suc (length-map f ls)

-- The four copies of the lines of a CleansedLines have the number of lines that it keeps.
pub cleansed_lines-lengths :
    (raw : List Text)
    → let c = cleansed_lines raw in
      (length c.elided ≡ c.num_lines)
      × (length c.lines ≡ c.num_lines)
      × (length c.raw_lines ≡ c.num_lines)
      × (length c.lines_without_raw_strings ≡ c.num_lines)
unfolding cleansed_lines
cleansed_lines-lengths raw =
    let same = length-cleanse_raw_strings raw in
    (
      length-map _ (cleanse_raw_strings raw) ∙ same,
      length-map _ (cleanse_raw_strings raw) ∙ same,
      refl,
      same,
    )
