-- ===== src/Cleanse/Raw/Settled.antt =====
-- The loop of CleanseRawStrings over the raw strings of a line.
use myframe.Common.{ℕ, suc, ◌≡◌, refl, ap, Option, none, some, List, [], ◌∷◌, length}
use myframe.Text.{Text}
use myframe.Cleanse.Raw.{
  RawMove, plain, opened, replaced, replace_raw, cleanse_raw_line, cleanse_raw_from,
  cleanse_raw_strings,
}

-- What the loop does after a round
abbrev after_move : ℕ → Text → RawMove → Text × Option Text
after_move fuel line plain = (line, none)
after_move fuel line (opened line' delimiter) = (line', some delimiter)
after_move fuel line (replaced line') = replace_raw fuel line'

length-cleanse_raw_from :
    (delimiter : Option Text) (lines : List Text)
    → length (cleanse_raw_from delimiter lines) ≡ length lines
unfolding cleanse_raw_from
length-cleanse_raw_from delimiter [] = refl
length-cleanse_raw_from delimiter (l ∷ lines) =
    ap suc (length-cleanse_raw_from (cleanse_raw_line delimiter l).1 lines)

pub length-cleanse_raw_strings :
    (lines : List Text) → length (cleanse_raw_strings lines) ≡ length lines
unfolding cleanse_raw_strings
length-cleanse_raw_strings lines = length-cleanse_raw_from none lines
