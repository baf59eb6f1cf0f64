-- ===== src/FileChecks/Characters.antt =====
-- CheckForBadCharacters over all lines.
use myframe.Common.{
  ℕ, suc, ◌≡◌, ◌↔◌, refl, Bool, true, not, ◌&&◌, List, [], ◌∷◌, ◌++◌, all, and-true, arith,
}
use myframe.Text.{Text, has_char}
use myframe.Categories.{Diagnostic}
use myframe.FileChecks.{check_for_bad_characters, bad_characters_from, bad_characters_of}

abbrev pub is_clean : Text → Bool
is_clean line = not (has_char line 0xfffd) && not (has_char line 0)

bad_characters_of_iff :
    (n : ℕ) (line : Text) → (bad_characters_of n line ≡ []) ↔ (is_clean line ≡ true)
unfolding bad_characters_of
bad_characters_of_iff n line = ground arith

append-nil_split : (xs ys : List Diagnostic) → (xs ++ ys ≡ []) ↔ ((xs ≡ []) × (ys ≡ []))
append-nil_split [] ys = ground arith
append-nil_split (x ∷ xs) ys = ground arith

bad_characters_from_iff :
    (n : ℕ) (lines : List Text) → (bad_characters_from n lines ≡ []) ↔ (all is_clean lines ≡ true)
unfolding bad_characters_from
bad_characters_from_iff n [] = ground arith
bad_characters_from_iff n (l ∷ lines) =
    let both = append-nil_split (bad_characters_of n l) (bad_characters_from (suc n) lines) in
    let here = bad_characters_of_iff n l in
    let later = bad_characters_from_iff (suc n) lines in
    (
      λ e. and-intro (here.0 (both.0 e).0) (later.0 (both.0 e).1),
      λ e.
          let (h, k) = and-true (is_clean l) (all is_clean lines) e in both.1 (here.1 h, later.1 k),
    )
  where
    and-intro : {a b : Bool} → a ≡ true → b ≡ true → (a && b) ≡ true
    and-intro h k = rw (h, k) refl

-- CheckForBadCharacters reports nothing exactly when no line of the file has a replacement character
-- or a NUL.
pub check_for_bad_characters_iff :
    (lines : List Text) → (check_for_bad_characters lines ≡ []) ↔ (all is_clean lines ≡ true)
unfolding check_for_bad_characters
check_for_bad_characters_iff lines = bad_characters_from_iff 0 lines
