-- ===== src/Cleanse/Comments.antt =====
-- FindNextMultiLineCommentStart, FindNextMultiLineCommentEnd, RemoveMultiLineCommentsFromRange and
-- RemoveMultiLineComments of cpplint.py.
pub mod Gone
use mathlib.Core.List.{reverse}
use myframe.Common.{
  ℕ, zero, suc, ◌+◌, Bool, not, ◌&&◌, Option, none, some, List, [], ◌∷◌, leb, ltb, if◌then◌else◌,
  length, drop,
}
use myframe.Text.{Text, codes, strip, starts_with, find}
use myframe.Regex.{is_some}
use myframe.Categories.{Diagnostic}

abbrev pub opening : Text
opening = codes "/*"

abbrev pub closing : Text
closing = codes "*/"

-- The line begins a comment that goes beyond it.
unfoldable pub begins_comment : Text → Bool
begins_comment line =
    starts_with (strip line) opening && not (is_some (find (drop 2 (strip line)) closing))

-- lines[lineix].strip().endswith('*/')
unfoldable pub ends_comment : Text → Bool
ends_comment line = starts_with (reverse (strip line)) (reverse closing)

-- The loops over the lines: where the first one is that passes the test
unfoldable pub first_index : (Text → Bool) → List Text → Option ℕ
first_index p [] = none
first_index p (l ∷ ls) =
    let later = first_index p ls in
    if p l then some 0 else elim later [ none ↦ none | some i ↦ some (suc i) ]

abbrev pub index_or : ℕ → ℕ → Option ℕ → ℕ
index_or n i none = n
index_or n i (some k) = i + k

-- FindNextMultiLineCommentStart(lines, lineix)
unfoldable pub find_next_multi_line_comment_start : List Text → ℕ → ℕ
unfolding first_index
find_next_multi_line_comment_start lines lineix =
    index_or (length lines) lineix (first_index begins_comment (drop lineix lines))

-- FindNextMultiLineCommentEnd(lines, lineix)
unfoldable pub find_next_multi_line_comment_end : List Text → ℕ → ℕ
unfolding first_index
find_next_multi_line_comment_end lines lineix =
    index_or (length lines) lineix (first_index ends_comment (drop lineix lines))

-- RemoveMultiLineCommentsFromRange(lines, begin, end), for a range in the list
unfoldable pub remove_multi_line_comments_from_range : List Text → ℕ → ℕ → List Text
remove_multi_line_comments_from_range [] begin end = []
remove_multi_line_comments_from_range (l ∷ ls) begin zero = l ∷ ls
remove_multi_line_comments_from_range (l ∷ ls) zero (suc end) =
    codes "/**/" ∷ remove_multi_line_comments_from_range ls zero end
remove_multi_line_comments_from_range (l ∷ ls) (suc begin) (suc end) =
    l ∷ remove_multi_line_comments_from_range ls begin end

-- One round of the loop of RemoveMultiLineComments: it ends, it reports a comment without an end,
-- or it clears the lines from `begin` to `end`.
pub data Round : Type 0 where
  done : Round
  unfinished : ℕ → Round
  clear : ℕ → ℕ → Round

-- The tests of the round, on the number of lines
unfoldable pub round_at : ℕ → ℕ → ℕ → ℕ → Round
round_at num_lines lineix begin end =
    if not (ltb lineix num_lines)
    then done
    else if leb num_lines begin
    then done
    else if leb num_lines end
    then unfinished begin
    else clear begin end

unfoldable pub comment_round : List Text → ℕ → Round
unfolding find_next_multi_line_comment_start find_next_multi_line_comment_end round_at
comment_round lines lineix =
    let begin = find_next_multi_line_comment_start lines lineix in
    round_at (length lines) lineix begin (find_next_multi_line_comment_end lines begin)

abbrev pub no_end : ℕ → Diagnostic
no_end begin = record {
  line = begin + 1;
  category = codes "readability/multiline_comment";
  confidence = 5;
  message = codes "Could not find end of multi-line comment";
}

-- The loop from `lineix`, which grows in each round
unfoldable pub remove_comments_from : ℕ → ℕ → List Text → List Text × List Diagnostic
unfolding comment_round remove_multi_line_comments_from_range
remove_comments_from zero lineix lines = (lines, [])
remove_comments_from (suc fuel) lineix lines = elim (comment_round lines lineix) [
  | done ↦ (lines, [])
  | unfinished begin ↦ (lines, no_end begin ∷ [])
  | clear begin end ↦
      remove_comments_from fuel (end + 1)
        (remove_multi_line_comments_from_range lines begin (end + 1))
]

-- RemoveMultiLineComments(filename, lines, error)
unfoldable pub remove_multi_line_comments : List Text → List Text × List Diagnostic
unfolding remove_comments_from
remove_multi_line_comments lines = remove_comments_from (length lines) 0 lines
