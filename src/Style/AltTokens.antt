-- ===== src/Style/AltTokens.antt =====
-- CheckAltTokens of cpplint.py.
pub mod Keys
use myframe.Common.{ℕ, zero, suc, ◌-◌, ◌||◌, none, some, List, [], ◌∷◌, ◌++◌, if◌then◌else◌, length}
use myframe.Text.{Text, codes, text_eq, has_text}
use myframe.Regex.{
  Regex, Cursor, run, first_found, alt, star, group, line_start, line_end, ahead, ◌&◌, Found,
  group_text, matches,
}
use myframe.Regex.Classes.{char, one_of, space, one_text}
use myframe.Categories.{Diagnostic}
use myframe.Blocks.{report}

-- _ALT_TOKEN_REPLACEMENT
unfoldable pub alt_tokens : List (Text × Text)
alt_tokens =
    (codes "and", codes "&&")
    ∷ (codes "bitor", codes "|")
    ∷ (codes "or", codes "||")
    ∷ (codes "xor", codes "^")
    ∷ (codes "compl", codes "~")
    ∷ (codes "bitand", codes "&")
    ∷ (codes "and_eq", codes "&=")
    ∷ (codes "or_eq", codes "|=")
    ∷ (codes "xor_eq", codes "^=")
    ∷ (codes "not", codes "!")
    ∷ (codes "not_eq", codes "!=")
    ∷ []

abbrev pub keys : List (Text × Text) → List Text
keys [] = []
keys ((k, v) ∷ rest) = k ∷ keys rest

unfoldable pub replacement_of : Text → List (Text × Text) → Text
unfolding text_eq
replacement_of token [] = []
replacement_of token ((k, v) ∷ rest) = if text_eq token k then v else replacement_of token rest

-- _ALT_TOKEN_REPLACEMENT_PATTERN: `[ =()](` tokens `)(?=[ (]|$)`
unfoldable pub alt_token_pattern : Regex
unfolding alt_tokens
alt_token_pattern =
    one_of (codes " =()")
    & group 1 (one_text (keys alt_tokens))
    & ahead (alt (one_of (codes " (")) line_end)

-- pattern.finditer(s), where no match is empty: the first argument counts the characters of a match
-- that are still to be skipped.
unfoldable pub find_all : Regex → ℕ → Text → Text → List Found
unfolding myframe.Regex.run myframe.Regex.first_found
find_all r skipped before [] = []
find_all r (suc skipped) before (c ∷ s) = find_all r skipped (c ∷ before) s
find_all r zero before (c ∷ s) =
    let here : Cursor = record { before = before; rest = c ∷ s; groups = [] } in
    let rest = λ (n : ℕ). find_all r n (c ∷ before) s in
    elim (first_found (length before) here (run r here)) [
      | none ↦ rest 0
      | some m ↦ m ∷ rest (length m.text - 1)
    ]

unfoldable pub alt_token_reports : List Found → ℕ → List Diagnostic
unfolding replacement_of alt_tokens
alt_token_reports [] linenum = []
alt_token_reports (m ∷ ms) linenum =
    report linenum (codes "readability/alt_tokens") 2 (
      codes "Use operator "
      ++ (replacement_of (group_text 1 m) alt_tokens ++ (codes " instead of " ++ group_text 1 m)))
    ∷ alt_token_reports ms linenum

-- `^\s*#`
unfoldable pub hash_pattern : Regex
hash_pattern = line_start & star space & char b'#'

-- CheckAltTokens, on clean_lines.elided[linenum]
unfoldable pub check_alt_tokens : Text → ℕ → List Diagnostic
unfolding hash_pattern has_text find_all alt_token_pattern alt_token_reports
check_alt_tokens line linenum =
    if matches hash_pattern line || (has_text line (codes "/*") || has_text line (codes "*/"))
    then []
    else alt_token_reports (find_all alt_token_pattern 0 [] line) linenum
