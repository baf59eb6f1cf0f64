-- ===== src/Suppress.antt =====
-- NOLINT comments of cpplint.py: ParseNolintSuppressions, ProcessGlobalSuppresions,
-- ResetNolintSuppressions and IsErrorSuppressedByNolint, over the two global dictionaries.
pub mod Exact
use myframe.Common.{
  ℕ, ◌+◌, ◌-◌, Bool, true, false, not, ◌||◌, Option, none, some, List, [], ◌∷◌, ◌++◌, ◌==◌,
  if◌then◌else◌, length, take, drop, any,
}
use myframe.Text.{Text, codes, text_eq, starts_with, is_one_of}
use myframe.Regex.{
  Regex, alt, star, group, word_boundary, line_end, ◌&◌, Found, group_of, search_pattern, contains,
}
use myframe.Regex.Classes.{char, literal, dot, space, none_of, plus, opt, alts}
use myframe.Categories.{
  Diagnostic, error_categories, legacy_error_categories, other_nolint_category_prefixes,
  default_c_suppressed_categories, default_kernel_suppressed_categories,
}

-- `_error_suppressions`, a dictionary from a category, or `none` for all of them, to a set of line
-- numbers, and the keys of `_global_error_suppressions`, whose values are all True.
pub record Suppressions : Type 0 where
  pub by_line : List (Option Text × List ℕ)
  pub everywhere : List Text

abbrev pub key_eq : Option Text → Option Text → Bool
key_eq none none = true
key_eq none (some t) = false
key_eq (some s) none = false
key_eq (some s) (some t) = text_eq s t

abbrev pub has_line : ℕ → List ℕ → Bool
has_line n [] = false
has_line n (m ∷ ms) = m == n || has_line n ms

-- line in dict.get(key, set())
unfoldable pub suppressed_at : Option Text → ℕ → List (Option Text × List ℕ) → Bool
unfolding text_eq
suppressed_at key n [] = false
suppressed_at key n ((k, ns) ∷ rest) =
    if key_eq k key then has_line n ns else suppressed_at key n rest

-- dict.setdefault(key, set()).add(line)
unfoldable pub add_line :
    Option Text → ℕ → List (Option Text × List ℕ) → List (Option Text × List ℕ)
unfolding text_eq
add_line key n [] = (key, n ∷ []) ∷ []
add_line key n ((k, ns) ∷ rest) =
    if key_eq k key
    then (k, if has_line n ns then ns else n ∷ ns) ∷ rest
    else (k, ns) ∷ add_line key n rest

-- `\bNOLINT(NEXTLINE)?\b(\([^)]+\))?`
unfoldable pub nolint_pattern : Regex
nolint_pattern =
    word_boundary
    & literal (codes "NOLINT")
    & opt (group 1 (literal (codes "NEXTLINE")))
    & word_boundary
    & opt (group 2 (char b'(' & plus (none_of (codes ")")) & char b')'))

-- category[1:-1]
abbrev pub inner : Text → Text
inner s = take (length s - 2) (drop 1 s)

abbrev pub suppress : Option Text → ℕ → Suppressions → Suppressions
suppress key n s = record s { by_line = add_line key n s.by_line }

-- The category in parentheses, once it is known not to be `(*)`
unfoldable pub suppress_category : Text → ℕ → ℕ → Suppressions → Suppressions × List Diagnostic
suppress_category category line n s =
    if is_one_of category error_categories
    then (suppress (some category) n s, [])
    else if any (λ c. starts_with category c) other_nolint_category_prefixes
    then (s, [])
    else if not (is_one_of category legacy_error_categories)
    then (
      s,
      record {
        line = line;
        category = codes "readability/nolint";
        confidence = 5;
        message = codes "Unknown NOLINT error category: " ++ category;
      }
          ∷ [],
    )
    else (s, [])

-- suppressed_line, by group 1: the next line after NOLINTNEXTLINE
abbrev pub target : Option Text → ℕ → ℕ
target none line = line
target (some t) line = line + 1

-- What is done by group 2, which begins with `(` and ends with `)`, so that the source's test for
-- these always holds.
unfoldable pub apply_category : Option Text → ℕ → ℕ → Suppressions → Suppressions × List Diagnostic
apply_category none line n s = (suppress none n s, [])
apply_category (some category) line n s =
    if text_eq category (codes "(*)")
    then (suppress none n s, [])
    else suppress_category (inner category) line n s

-- What is done with a match.
unfoldable pub apply_nolint : ℕ → Found → Suppressions → Suppressions × List Diagnostic
apply_nolint line m s = apply_category (group_of 2 m) line (target (group_of 1 m) line) s

-- ParseNolintSuppressions(filename, raw_line, linenum, error)
unfoldable pub parse_nolint_suppressions : Text → ℕ → Suppressions → Suppressions × List Diagnostic
parse_nolint_suppressions raw_line line s = elim (search_pattern nolint_pattern raw_line) [
  | none ↦ (s, [])
  | some m ↦ apply_nolint line m s
]

-- _SEARCH_C_FILE: `\b(?:LINT_C_FILE|vim?:\s*.*(\s*|:)filetype=c(\s*|:|$))`
unfoldable pub c_file_pattern : Regex
c_file_pattern =
    word_boundary
    & alt (literal (codes "LINT_C_FILE")) (
        literal (codes "vi")
        & opt (char b'm')
        & char b':'
        & star space
        & star dot
        & alt (star space) (char b':')
        & literal (codes "filetype=c")
        & alts (star space ∷ char b':' ∷ line_end ∷ []))

-- _SEARCH_KERNEL_FILE: `\b(?:LINT_KERNEL_FILE)`
unfoldable pub kernel_file_pattern : Regex
kernel_file_pattern = word_boundary & literal (codes "LINT_KERNEL_FILE")

-- global_suppressions[category] = True for each category
unfoldable pub add_everywhere : List Text → Suppressions → Suppressions
add_everywhere [] s = s
add_everywhere (c ∷ cs) s =
    add_everywhere cs (record s {
      everywhere = if is_one_of c s.everywhere then s.everywhere else c ∷ s.everywhere;
    })

-- The directives of one line
unfoldable pub global_suppressions_of_line : Text → Suppressions → Suppressions
global_suppressions_of_line line s =
    let s' =
      if contains c_file_pattern line
      then add_everywhere default_c_suppressed_categories s
      else s in
    if contains kernel_file_pattern line
    then add_everywhere default_kernel_suppressed_categories s'
    else s'

-- ProcessGlobalSuppresions(lines)
unfoldable pub process_global_suppressions : List Text → Suppressions → Suppressions
process_global_suppressions [] s = s
process_global_suppressions (line ∷ lines) s =
    process_global_suppressions lines (global_suppressions_of_line line s)

-- ResetNolintSuppressions()
unfoldable pub reset_nolint_suppressions : Suppressions → Suppressions
reset_nolint_suppressions s = record { by_line = []; everywhere = [] }

-- IsErrorSuppressedByNolint(category, linenum)
unfoldable pub is_error_suppressed_by_nolint : Text → ℕ → Suppressions → Bool
is_error_suppressed_by_nolint category line s =
    is_one_of category s.everywhere
    || (suppressed_at (some category) line s.by_line || suppressed_at none line s.by_line)
