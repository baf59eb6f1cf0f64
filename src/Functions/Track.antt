-- ===== src/Functions/Track.antt =====
-- CheckForFunctionLengths over the lines of a body.
use myframe.Common.{ℕ, zero, suc, ◌+◌, ◌≡◌, false, List, [], ◌++◌, get_or, if◌then◌else◌, arith}
use myframe.Text.{Text}
use myframe.Regex.{matches}
use myframe.Categories.{Diagnostic}
use myframe.Functions.{
  FunctionState, count_line, is_starting_func, closing_pattern, blank_pattern,
  check_for_function_lengths,
}

-- The calls for `k` lines from `linenum` on, with all that they report.
abbrev pub check_lines : ℕ → List Text → ℕ → ℕ → FunctionState → FunctionState × List Diagnostic
check_lines verbose lines linenum zero s = (s, [])
check_lines verbose lines linenum (suc k) s =
    let (s', ds) = check_for_function_lengths verbose lines linenum s in
    let (s'', es) = check_lines verbose lines (linenum + 1) k s' in (s'', ds ++ es)

-- A line that neither begins a function nor ends one.
abbrev pub IsInner : List Text → ℕ → Type 0
IsInner lines n =
    (is_starting_func (get_or lines n []) ≡ false)
    × (matches closing_pattern (get_or lines n []) ≡ false)

abbrev pub AllInner : List Text → ℕ → ℕ → Type 0
AllInner lines n zero = Unit
AllInner lines n (suc k) = IsInner lines n × AllInner lines (n + 1) k

-- How many of `k` lines from `n` on are not blank.
abbrev pub filled : List Text → ℕ → ℕ → ℕ
filled lines n zero = 0
filled lines n (suc k) =
    (if matches blank_pattern (get_or lines n []) then 0 else 1) + filled lines (n + 1) k

-- Over inner lines nothing is reported, the function stays the same, and its count grows by the number
-- of lines that are not blank; outside a function nothing is counted.
pub check_lines-inner :
    (verbose : ℕ) (lines : List Text) (n k : ℕ) (s : FunctionState)
    → AllInner lines n k
    → check_lines verbose lines n k s ≡ (
      record s {
        lines_in_function = s.lines_in_function + (if s.in_a_function then filled lines n k else 0);
      },
      [],
    )
unfolding check_for_function_lengths count_line
check_lines-inner verbose lines n zero s a = ground arith
check_lines-inner verbose lines n (suc k) s a = ground (
  arith,
  check_lines-inner verbose lines (n + 1) k (check_for_function_lengths verbose lines n s).0 a.1,
)
