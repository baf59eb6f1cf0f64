-- ===== src/FileChecks.antt =====
-- The checks of cpplint.py on all lines of a file, and the short ones on one line.
pub mod Newline
pub mod Characters
use myframe.Common.{
  ℕ, suc, ◌+◌, ◌-◌, ◌%◌, Bool, true, false, not, ◌&&◌, ◌||◌, none, some, List, [], ◌∷◌, ◌++◌, ltb,
  ◌==◌, if◌then◌else◌, length, take, drop, any, all, get_or,
}
use myframe.Text.{Text, codes, has_char, is_space, replace, count}
use myframe.Regex.{
  Regex, chr, alt, star, group, line_start, line_end, word_boundary, ◌&◌, group_text, match_pattern,
  matches, contains,
}
use myframe.Regex.Classes.{char, literal, space, non_space, word, dot, plus}
use myframe.Categories.{Diagnostic}

abbrev pub diagnostic : ℕ → Text → Text → Diagnostic
diagnostic line category message = record {
  line = line;
  category = category;
  confidence = 5;
  message = message;
}

-- What a check reports where its condition holds
abbrev pub report_if : Bool → Diagnostic → List Diagnostic
report_if b d = if b then d ∷ [] else []

-- A letter under re.I, given by its lower case. The letter i also stands for U+0130 and U+0131.
abbrev letter : ℕ → Regex
letter c = chr (λ x. x == c || (x + 32 == c || (c == b'i' && (x == 0x130 || x == 0x131))))

-- `Copyright`, under re.I
unfoldable pub copyright_pattern : Regex
copyright_pattern =
    letter b'c'
    & letter b'o'
    & letter b'p'
    & letter b'y'
    & letter b'r'
    & letter b'i'
    & letter b'g'
    & letter b'h'
    & letter b't'

-- CheckForCopyright(filename, lines, error): the lines 1 to 10
unfoldable pub check_for_copyright : List Text → List Diagnostic
unfolding copyright_pattern
check_for_copyright lines =
    report_if (not (any (contains copyright_pattern) (take 10 (drop 1 lines)))) (
      diagnostic 0 (codes "legal/copyright") (
        codes "No copyright message found.  You should have a line: "
        ++ (34 ∷ codes "Copyright [year] <Copyright Owner>" ++ 34 ∷ [])))

-- GetIndentLevel(line), by `^( *)\S`
unfoldable pub get_indent_level : Text → ℕ
get_indent_level line =
    elim (match_pattern (line_start & group 1 (star (char 32)) & non_space) line) [
      | none ↦ 0
      | some m ↦ length (group_text 1 m)
    ]

-- IsBlankLine(line): all of it is space, if there is any
unfoldable pub is_blank_line : Text → Bool
unfolding is_space
is_blank_line line = all is_space line

-- '\ufffd' in line, '\0' in line
unfoldable pub bad_characters_of : ℕ → Text → List Diagnostic
unfolding has_char
bad_characters_of linenum line =
    report_if (has_char line 0xfffd) (
      diagnostic linenum (codes "readability/utf8")
        (codes "Line contains invalid UTF-8 (or Unicode replacement character)."))
    ++ report_if (has_char line 0)
        (diagnostic linenum (codes "readability/nul") (codes "Line contains NUL byte."))

-- The loop from line `linenum`
unfoldable pub bad_characters_from : ℕ → List Text → List Diagnostic
unfolding bad_characters_of
bad_characters_from linenum [] = []
bad_characters_from linenum (line ∷ rest) =
    bad_characters_of linenum line ++ bad_characters_from (suc linenum) rest

-- CheckForBadCharacters(filename, lines, error)
unfoldable pub check_for_bad_characters : List Text → List Diagnostic
unfolding bad_characters_from
check_for_bad_characters lines = bad_characters_from 0 lines

-- lines[-2] of at least two lines
abbrev pub last_but_one : List Text → Text
last_but_one [] = []
last_but_one (a ∷ []) = []
last_but_one (a ∷ b ∷ []) = a
last_but_one (a ∷ b ∷ c ∷ lines) = last_but_one (b ∷ c ∷ lines)

abbrev is_empty : Text → Bool
is_empty [] = true
is_empty (c ∷ s) = false

-- CheckForNewlineAtEOF(filename, lines, error). Of fewer than two lines, where the source reports on
-- a line below 0, this reports on line 0; ProcessFileData always passes three or more.
unfoldable pub check_for_newline_at_eof : List Text → List Diagnostic
check_for_newline_at_eof lines =
    report_if (ltb (length lines) 3 || not (is_empty (last_but_one lines))) (
      diagnostic (length lines - 2) (codes "whitespace/ending_newline")
        (codes "Could not find a newline character at the end of the file."))

-- CheckForMultilineCommentsAndStrings(filename, clean_lines, linenum, error) on the line
-- clean_lines.elided[linenum]. The difference of the two counts of quotes is odd exactly when the
-- sum is.
unfoldable pub check_for_multiline_comments_and_strings : Text → ℕ → List Diagnostic
unfolding replace count
check_for_multiline_comments_and_strings elided linenum =
    let line = replace (92 ∷ 92 ∷ []) [] elided in
    report_if (ltb (count (codes "*/") line) (count (codes "/*") line)) (
      diagnostic linenum (codes "readability/multiline_comment") (
        codes "Complex multi-line /*...*/-style comment found. "
        ++ (codes "Lint may give bogus warnings.  "
            ++ (codes "Consider replacing these with //-style comments, "
                ++ (codes "with #if 0...#endif, "
                    ++ codes "or with more clearly structured multi-line comments.")))))
    ++ report_if ((count (34 ∷ []) line + count (92 ∷ 34 ∷ []) line) % 2 == 1) (
        diagnostic linenum (codes "readability/multiline_string") (
          codes "Multi-line string ("
          ++ (34 ∷ codes "..."
              ++ (34
                    ∷ codes
                        ") found.  This lint script doesn't do well with such strings, and may give bogus "
                  ++ codes "warnings.  Use C++11 raw strings or concatenation instead."))))

-- _RE_PATTERN_INVALID_INCREMENT: `^\s*\*\w+(\+\+|--);`
unfoldable pub invalid_increment_pattern : Regex
invalid_increment_pattern =
    line_start
    & star space
    & char b'*'
    & plus word
    & group 1 (alt (literal (codes "++")) (literal (codes "--")))
    & char b';'

-- CheckInvalidIncrement(filename, clean_lines, linenum, error) on clean_lines.elided[linenum]
unfoldable pub check_invalid_increment : Text → ℕ → List Diagnostic
unfolding invalid_increment_pattern
check_invalid_increment line linenum = report_if (matches invalid_increment_pattern line) (
    diagnostic linenum (codes "runtime/invalid_increment")
      (codes "Changing pointer instead of value (or unused value of operator*)."))

-- IsMacroDefinition(clean_lines, linenum), for a line that is there: `^#define`, or the line before
-- ends with a backslash
unfoldable pub is_macro_definition : List Text → ℕ → Bool
is_macro_definition lines linenum =
    contains (line_start & literal (codes "#define")) (get_or lines linenum [])
    || (ltb 0 linenum && contains (char 92 & line_end) (get_or lines (linenum - 1) []))

-- IsForwardClassDeclaration: `^\s*(\btemplate\b)*.*class\s+\w+;\s*$`
unfoldable pub forward_class_pattern : Regex
forward_class_pattern =
    line_start
    & star space
    & star (group 1 (word_boundary & literal (codes "template") & word_boundary))
    & star dot
    & literal (codes "class")
    & plus space
    & plus word
    & char b';'
    & star space
    & line_end

unfoldable pub is_forward_class_declaration : List Text → ℕ → Bool
unfolding forward_class_pattern
is_forward_class_declaration lines linenum = matches forward_class_pattern (get_or lines linenum [])
