-- ===== src/Style/Layout.antt =====
-- GetLineWidth of cpplint.py and the checks that CheckStyle makes itself.
use myframe.Common.{
  ℕ, suc, ◌+◌, ◌-◌, Bool, true, false, not, ◌&&◌, ◌||◌, List, [], ◌∷◌, ◌++◌, ltb, ◌==◌,
  if◌then◌else◌, get_or,
}
use myframe.Text.{Text, codes, text_eq, has_char, has_text, count, is_space, starts_with}
use myframe.Regex.{Regex, star, group, line_start, line_end, ◌&◌, matches, contains}
use myframe.Regex.Classes.{
  char, literal, one_of, none_of, space, non_space, digit, dot, plus, opt, one_text,
}
use myframe.Categories.{Diagnostic}
use myframe.Blocks.{report}
use myframe.Cleanse.Lines.{CleansedLines}
use myframe.Text.{decimal}
use myframe.Common.Int.{ℤ, pos, negsuc}
use myframe.Style.Sections.{previous_line}

-- What GetLineWidth asks of the module unicodedata: normalize('NFC', ·), whether east_asian_width is W
-- or F, and whether combining is not 0
pub record Unicode : Type 0 where
  pub normalize : Text → Text
  pub is_wide : ℕ → Bool
  pub is_combining : ℕ → Bool

unfoldable pub width_of : Unicode → Text → ℕ
width_of u [] = 0
width_of u (c ∷ s) = (if u.is_wide c then 2 else if u.is_combining c then 0 else 1) + width_of u s

-- GetLineWidth(line), of Python 3.3 or later
unfoldable pub get_line_width : Unicode → Text → ℕ
unfolding width_of
get_line_width u line = width_of u (u.normalize line)

-- `[",=><] *$`
unfoldable pub continued_line_pattern : Regex
continued_line_pattern = one_of (34 ∷ codes ",=><") & star (char 32) & line_end

-- `\s*(?:public|private|protected|signals)(?:\s+(?:slots\s*)?)?:\s*\\?$`
unfoldable pub scope_or_label_pattern : Regex
scope_or_label_pattern =
    star space
    & one_text (codes "public" ∷ codes "private" ∷ codes "protected" ∷ codes "signals" ∷ [])
    & opt (plus space & opt (literal (codes "slots") & star space))
    & char b':'
    & star space
    & opt (char 92)
    & line_end

-- `^\s*""`
unfoldable pub empty_string_pattern : Regex
empty_string_pattern = line_start & star space & char 34 & char 34

abbrev pub leading_spaces : Text → ℕ
leading_spaces [] = 0
leading_spaces (c ∷ s) = if c == 32 then suc (leading_spaces s) else 0

unfoldable pub check_indent : CleansedLines → ℕ → List Diagnostic
unfolding continued_line_pattern scope_or_label_pattern empty_string_pattern text_eq
check_indent clean linenum =
    let lines = clean.lines_without_raw_strings in
    let line = get_or lines linenum [] in
    let prev = if linenum == 0 then [] else get_or lines (linenum - 1) [] in
    let spaces = leading_spaces line in
    if not (contains continued_line_pattern prev)
      && ((spaces == 1 || spaces == 3)
          && (not (matches scope_or_label_pattern (get_or clean.elided linenum []))
              && not (
                  not (text_eq (get_or clean.raw_lines linenum []) line)
                  && matches empty_string_pattern line)))
    then report linenum (codes "whitespace/indent") 3
        (codes "Weird number of spaces at line-start.  Are you using a 2-space indent?")
      ∷ []
    else []

abbrev ends_in_space : Text → Bool
ends_in_space [] = false
ends_in_space (c ∷ []) = is_space c
ends_in_space (c ∷ d ∷ s) = ends_in_space (d ∷ s)

unfoldable pub check_line_end : Text → ℕ → List Diagnostic
unfolding is_space
check_line_end line linenum =
    if ends_in_space line
    then report linenum (codes "whitespace/end_of_line") 4
        (codes "Line ends in whitespace.  Consider deleting these extra spaces.")
      ∷ []
    else []

-- `^\s*//.*http(s?)://\S*$`, `^\s*//\s*[^\s]*$`, `^// \$Id:.*#[0-9]+ \$$`, and
-- `^\s*/// [@\\](copydoc|copydetails|copybrief) .*$`
unfoldable pub url_comment_pattern : Regex
url_comment_pattern =
    line_start
    & star space
    & literal (codes "//")
    & star dot
    & literal (codes "http")
    & group 1 (opt (char b's'))
    & literal (codes "://")
    & star non_space
    & line_end

unfoldable pub one_word_comment_pattern : Regex
one_word_comment_pattern =
    line_start & star space & literal (codes "//") & star space & star non_space & line_end

unfoldable pub id_comment_pattern : Regex
id_comment_pattern =
    line_start
    & literal (codes "// $Id:")
    & star dot
    & char b'#'
    & plus digit
    & literal (codes " $")
    & line_end

unfoldable pub copydoc_pattern : Regex
copydoc_pattern =
    line_start
    & star space
    & literal (codes "/// ")
    & one_of (b'@' ∷ 92 ∷ [])
    & group 1 (one_text (codes "copydoc" ∷ codes "copydetails" ∷ codes "copybrief" ∷ []))
    & char 32
    & star dot
    & line_end

-- The line is part of the header guard, whose name is `cppvar`.
unfoldable pub is_header_guard : Text → Text → Bool
unfolding starts_with
is_header_guard cppvar line =
    starts_with line (codes "#ifndef " ++ cppvar)
    || (starts_with line (codes "#define " ++ cppvar)
        || starts_with line (codes "#endif  // " ++ cppvar))

-- The line may be as long as it is.
unfoldable pub may_be_long : Text → Bool → Text → Bool
unfolding is_header_guard url_comment_pattern one_word_comment_pattern id_comment_pattern
    copydoc_pattern
may_be_long cppvar is_header line =
    starts_with line (codes "#include")
    || ((is_header && is_header_guard cppvar line)
        || (matches url_comment_pattern line
            || (matches one_word_comment_pattern line
                || (matches id_comment_pattern line || matches copydoc_pattern line))))

-- '%i' % z, and n > z
abbrev int_text : ℤ → Text
int_text (pos n) = decimal n
int_text (negsuc n) = b'-' ∷ decimal (suc n)

abbrev pub is_above : ℕ → ℤ → Bool
is_above n (pos z) = ltb z n
is_above n (negsuc z) = true

unfoldable pub check_line_length : Unicode → ℤ → Text → Bool → Text → ℕ → List Diagnostic
unfolding may_be_long get_line_width decimal
check_line_length u line_length cppvar is_header line linenum =
    if not (may_be_long cppvar is_header line) && is_above (get_line_width u line) line_length
    then report linenum (codes "whitespace/line_length") 2
        (codes "Lines should be <= " ++ (int_text line_length ++ codes " characters long"))
      ∷ []
    else []

-- `^[^{};]*\[[^\[\]]*\][^{}]*\{[^{}\n\r]*\}`
unfoldable pub one_line_lambda_pattern : Regex
one_line_lambda_pattern =
    line_start
    & star (none_of (codes "{};"))
    & char b'['
    & star (none_of (codes "[]"))
    & char b']'
    & star (none_of (codes "{}"))
    & char b'{'
    & star (none_of (codes "{}" ++ 10 ∷ 13 ∷ []))
    & char b'}'

unfoldable pub check_one_command : CleansedLines → ℕ → List Diagnostic
unfolding count has_text one_line_lambda_pattern
check_one_command clean linenum =
    let line = get_or clean.lines_without_raw_strings linenum [] in
    let cleansed = get_or clean.elided linenum [] in
    let previous = previous_line clean.elided linenum in
    if ltb 1 (count (codes ";") cleansed)
      && (not (matches one_line_lambda_pattern line)
          && (not (has_text cleansed (codes "for"))
              && ((not (has_text previous (codes "for")) || has_text previous (codes ";"))
                  && not (
                      (has_text cleansed (codes "case ") || has_text cleansed (codes "default:"))
                      && has_text cleansed (codes "break;")))))
    then report linenum (codes "whitespace/newline") 0
        (codes "More than one command on the same line")
      ∷ []
    else []

-- The checks that CheckStyle makes itself
unfoldable pub check_layout : Unicode → ℤ → Text → Bool → CleansedLines → ℕ → List Diagnostic
unfolding has_char check_indent check_line_end check_line_length check_one_command
check_layout u line_length cppvar is_header clean linenum =
    let line = get_or clean.lines_without_raw_strings linenum [] in
    (if has_char line 9
      then report linenum (codes "whitespace/tab") 1 (codes "Tab found; better to use spaces") ∷ []
      else [])
    ++ (check_indent clean linenum
        ++ (check_line_end line linenum
            ++ (check_line_length u line_length cppvar is_header line linenum
                ++ check_one_command clean linenum)))
