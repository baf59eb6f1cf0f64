-- ===== src/Includes/Check.antt =====
-- CheckIncludeLine and IsInAlphabeticalOrder of cpplint.py.
pub mod Later
pub mod Duplicate
use myframe.Common.{
  ℕ, zero, suc, ◌+◌, ◌-◌, Bool, true, false, not, ◌&&◌, ◌||◌, Option, none, some, List, [], ◌∷◌,
  ◌++◌, leb, if◌then◌else◌, length, take, get_or, ◌>>=◌,
}
use myframe.Text.{Text, codes, text_eq, text_lt, ends_with, has_text, decimal}
use myframe.Regex.{
  Regex, chr, star, group, line_start, line_end, word_boundary, ◌&◌, group_text, match_pattern,
  search_pattern, matches,
}
use myframe.Regex.Classes.{char, literal, none_of, space, dot, plus, alts}
use myframe.Categories.{Diagnostic}
use myframe.Cleanse.Lines.{CleansedLines, include_pattern}
use myframe.Blocks.{report}
use myframe.Options.{Options, get_header_extensions, get_non_header_extensions, is_header_extension}
use myframe.Paths.{Os, repository_name, extension, base_name}
use myframe.Includes.{
  IncludeState, find_header, add_include, set_last_header, canonicalize_alphabetical_order,
  check_next_include_order,
}
use myframe.Includes.Classify.{classify_include}

-- `^\s*#\s*include\b`
unfoldable pub include_start_pattern : Regex
include_start_pattern =
    line_start & star space & char b'#' & star space & literal (codes "include") & word_boundary

-- elided[linenum - 1], at -1 the last line
abbrev line_before : List Text → ℕ → Text
line_before elided zero = get_or elided (length elided - 1) []
line_before elided (suc linenum) = get_or elided linenum []

-- IsInAlphabeticalOrder(clean_lines, linenum, header_path)
unfoldable pub is_in_alphabetical_order : CleansedLines → ℕ → Text → IncludeState → Bool
unfolding text_lt include_start_pattern
is_in_alphabetical_order clean linenum header_path s = not (
    text_lt header_path s.last_header
    && matches include_start_pattern (line_before clean.elided linenum))

-- `#include\s*"([^/]+\.(.*))"`
unfoldable pub bare_include_pattern : Regex
bare_include_pattern =
    literal (codes "#include")
    & star space
    & char 34
    & group 1 (plus (none_of (codes "/")) & char b'.' & group 2 (star dot))
    & char 34

-- `^(?:[^/]*[A-Z][^/]*\.h|lua\.h|lauxlib\.h|lualib\.h)$`, _THIRD_PARTY_HEADERS_PATTERN
unfoldable pub third_party_headers_pattern : Regex
third_party_headers_pattern =
    line_start
    & alts (
        (star (none_of (codes "/"))
          & chr (λ c. leb b'A' c && leb c b'Z')
          & star (none_of (codes "/"))
          & literal (codes ".h"))
        ∷ literal (codes "lua.h")
        ∷ literal (codes "lauxlib.h")
        ∷ literal (codes "lualib.h")
        ∷ [])
    & line_end

-- The header stands without its directory.
unfoldable pub check_subdir : Options → Text → ℕ → List Diagnostic
unfolding bare_include_pattern third_party_headers_pattern is_header_extension
check_subdir o line linenum = elim (match_pattern bare_include_pattern line) [
  | none ↦ []
  | some m ↦
      if is_header_extension (group_text 2 m) o
        && not (matches third_party_headers_pattern (group_text 1 m))
      then report linenum (codes "build/include_subdir") 4
          (codes "Include the directory when naming header files")
        ∷ []
      else []
]

-- Where the first of the extensions that the include ends with, in another directory than the file, is
-- found. `none` stands for a search of the repository that does not end, here and below.
unfoldable pub foreign_source : Os → Options → Text → Text → List Text → Option (Option Text)
unfolding ends_with repository_name text_eq
foreign_source os o filename include [] = some none
foreign_source os o filename include (ext ∷ exts) =
    let further = foreign_source os o filename include exts in
    let here =
      (repository_name os o.repository filename >>= λ name.
      if text_eq (os.dirname name) (os.dirname include) then further else some (some ext)) in
    if ends_with include (b'.' ∷ ext) then here else further

-- s[0:n - k], where `n` is the length of `s`
abbrev drop_last : Text → ℕ → Text
drop_last s k =
    if leb k (length s) then take (length s - k) s else take (length s - (k - length s)) s

-- Whether the include and the name of the file, with one of the header extensions, hold one another
unfoldable pub third_src_header : Os → Options → Text → Text → List Text → Option Bool
unfolding repository_name extension has_text
third_src_header os o filename include [] = some false
third_src_header os o filename include (ext ∷ exts) = do
  own ← extension os o.repository filename
  headername ← repository_name os o.repository (drop_last filename (length own) ++ (b'.' ∷ ext))
  let further = third_src_header os o filename include exts
  if has_text include headername || has_text headername include then some true else further

-- The checks of the order, on a header that has been recorded
unfoldable pub check_order :
    Os
    → Options
    → Text
    → CleansedLines
    → ℕ
    → Text
    → Bool
    → IncludeState
    → Option (IncludeState × List Diagnostic)
unfolding classify_include check_next_include_order base_name canonicalize_alphabetical_order
    is_in_alphabetical_order set_last_header
check_order os o filename clean linenum include used_angle_brackets s = do
  header_type ← classify_include os o filename include used_angle_brackets
  let (s', message) = check_next_include_order header_type s
  base ← (if text_eq message [] then some [] else base_name os o.repository filename)
  let order =
      (if text_eq message []
        then []
        else report linenum (codes "build/include_order") 4 (
            message
            ++ (codes ". Should be: " ++ (base ++ codes ".h, c system, c++ system, other.")))
          ∷ [])
  let canonical = canonicalize_alphabetical_order include
  let alpha =
      (if is_in_alphabetical_order clean linenum canonical s'
        then []
        else report linenum (codes "build/include_alpha") 4
            (codes "Include " ++ (34 ∷ include ++ (34 ∷ codes " not in alphabetical order")))
          ∷ [])
  some (set_last_header canonical s', order ++ alpha)

-- A header that no earlier line has included
unfoldable pub check_new_include :
    Os
    → Options
    → Text
    → CleansedLines
    → ℕ
    → Text
    → Bool
    → IncludeState
    → Option (IncludeState × List Diagnostic)
unfolding foreign_source third_src_header third_party_headers_pattern add_include check_order
check_new_include os o filename clean linenum include used_angle_brackets s = do
  foreign ← foreign_source os o filename include (get_non_header_extensions o)
  let ordered = (do
    own ← third_src_header os o filename include (get_header_extensions o)
    if own || not (matches third_party_headers_pattern include)
        then check_order os o filename clean linenum include used_angle_brackets
            (add_include include linenum s)
        else some (s, []))
  elim foreign [
    | some ext ↦ some (
      s,
      report linenum (codes "build/include") 4
            (codes "Do not include ." ++ (ext ++ codes " files from other packages"))
          ∷ [],
    )
    | none ↦ ordered
  ]

abbrev pub duplicate : Text → ℕ → Text → ℕ → Diagnostic
duplicate filename linenum include line =
    report linenum (codes "build/include") 4
      (34 ∷ include ++ (34 ∷ codes " already included at " ++ (filename ++ (b':' ∷ decimal line))))

unfoldable pub check_include :
    Os
    → Options
    → Text
    → CleansedLines
    → ℕ
    → Text
    → Bool
    → IncludeState
    → Option (IncludeState × List Diagnostic)
unfolding find_header check_new_include
check_include os o filename clean linenum include used_angle_brackets s =
    let new = check_new_include os o filename clean linenum include used_angle_brackets s in
    elim (find_header include s) [
      | some line ↦ some (s, duplicate filename linenum include line ∷ [])
      | none ↦ new
    ]

-- CheckIncludeLine(filename, clean_lines, linenum, include_state, error)
unfoldable pub check_include_line :
    Os → Options → Text → CleansedLines → ℕ → IncludeState → Option (IncludeState × List Diagnostic)
unfolding check_subdir include_pattern check_include
check_include_line os o filename clean linenum s =
    let line = get_or clean.lines linenum [] in
    let subdir = check_subdir o line linenum in
    elim (search_pattern include_pattern line) [
      | none ↦ some (s, subdir)
      | some m ↦
          (check_include os o filename clean linenum (group_text 2 m)
              (text_eq (group_text 1 m) (codes "<")) s
            >>= λ out. some (out.0, subdir ++ out.1))
    ]
