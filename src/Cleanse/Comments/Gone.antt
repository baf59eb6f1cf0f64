-- ===== src/Cleanse/Comments/Gone.antt =====
-- What RemoveMultiLineComments leaves of the lines.
use myframe.Common.{ℕ, zero, suc, ◌≡◌, refl, ap, false, List, [], ◌∷◌, length, All}
use myframe.Text.{Text}
use myframe.Cleanse.Comments.{begins_comment, remove_multi_line_comments_from_range}

-- None of the lines begins a comment that goes beyond it.
abbrev pub IsClear : List Text → Type 0
IsClear = All (λ l. begins_comment l ≡ false)

pub length-remove_range :
    (ls : List Text) (b e : ℕ) → length (remove_multi_line_comments_from_range ls b e) ≡ length ls
unfolding remove_multi_line_comments_from_range
length-remove_range [] b e = refl
length-remove_range (l ∷ ls) b zero = refl
length-remove_range (l ∷ ls) zero (suc e) = ap suc (length-remove_range ls zero e)
length-remove_range (l ∷ ls) (suc b) (suc e) = ap suc (length-remove_range ls b e)
