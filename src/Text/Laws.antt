-- ===== src/Text/Laws.antt =====
-- Laws of the functions of Text.antt.
use myframe.Common.{
  ℕ, zero, ◌<◌, ◌≡◌, refl, ◌↔◌, true, false, List, [], ◌∷◌, ◌++◌, arith, ◌==◌, if◌then◌else◌,
  length, drop,
}
use myframe.Text.{
  Text, text_eq, starts_with, has_char, split, replace, replace_from, lower, lower_char,
}

pub text_eq_refl : (s : Text) → text_eq s s ≡ true
unfolding text_eq
text_eq_refl [] = refl
text_eq_refl (c ∷ s) = ground (arith, text_eq_refl s)

pub text_eq_sound : (s t : Text) → text_eq s t ≡ true → s ≡ t
unfolding text_eq
text_eq_sound [] [] h = refl
text_eq_sound [] (d ∷ t) h = cc
text_eq_sound (c ∷ s) [] h = cc
text_eq_sound (c ∷ s) (d ∷ t) h = ground (arith, text_eq_sound s t)

pub text_eq_iff : (s t : Text) → (text_eq s t ≡ true) ↔ (s ≡ t)
text_eq_iff s t = (text_eq_sound s t, λ e. rw e (text_eq_refl t))

pub text_eq-flip : (s t : Text) → text_eq s t ≡ false → text_eq t s ≡ false
unfolding text_eq
text_eq-flip [] [] h = cc
text_eq-flip [] (d ∷ t) h = refl
text_eq-flip (c ∷ s) [] h = refl
text_eq-flip (c ∷ s) (d ∷ t) h = ground (arith, text_eq-flip s t)

pub starts_with-append : (p s : Text) → starts_with (p ++ s) p ≡ true
unfolding starts_with
starts_with-append [] s = refl
starts_with-append (c ∷ p) s = ground (arith, starts_with-append p s)

-- A text starts with `p` exactly when something put behind `p` makes it.
pub starts_with_sound : (s p : Text) → starts_with s p ≡ true → s ≡ p ++ drop (length p) s
unfolding starts_with
starts_with_sound s [] h = refl
starts_with_sound [] (d ∷ p) h = cc
starts_with_sound (c ∷ s) (d ∷ p) h = ground (arith, starts_with_sound s p)

pub has_char-append :
    (s t : Text) (c : ℕ) → has_char s c ≡ false → has_char t c ≡ false → has_char (s ++ t) c ≡ false
unfolding has_char
has_char-append [] t c h k = k
has_char-append (d ∷ s) t c h k = ground (arith, has_char-append s t c)

-- The first part of a split has no separator.
abbrev pub first_part : List Text → Text
first_part [] = []
first_part (t ∷ ts) = t

pub has_char-first_part-split :
    (sep : ℕ) (s : Text) → has_char (first_part (split sep s)) sep ≡ false
unfolding has_char split
has_char-first_part-split sep [] = refl
has_char-first_part-split sep (c ∷ s) = go (split sep s) (has_char-first_part-split sep s)
  where
    go :
        (ts : List Text)
        → has_char (first_part ts) sep ≡ false
        → has_char
            (first_part (
              if c == sep then [] ∷ ts else (elim ts [ [] ↦ (c ∷ []) ∷ [] | t ∷ r ↦ (c ∷ t) ∷ r ])))
            sep
          ≡ false
    go [] h = ground arith
    go (t ∷ ts) h = ground arith

-- A text in which `c` does not occur has no occurrence of anything that begins with `c`.
replace_from-absent :
    (c : ℕ) (p r s : Text) → has_char s c ≡ false → replace_from zero (c ∷ p) r s ≡ s
unfolding replace_from starts_with has_char
replace_from-absent c p r [] h = refl
replace_from-absent c p r (d ∷ s) h = ground (arith, replace_from-absent c p r s)

pub replace-absent : (c : ℕ) (p r s : Text) → has_char s c ≡ false → replace (c ∷ p) r s ≡ s
unfolding replace
replace-absent c p r s h = replace_from-absent c p r s h

-- Replacing a character by another leaves none of the first.
replace_from-removes :
    (c d : ℕ) (s : Text)
    → (c == d) ≡ false
    → has_char (replace_from zero (c ∷ []) (d ∷ []) s) c ≡ false
unfolding replace_from starts_with has_char
replace_from-removes c d [] ne = refl
replace_from-removes c d (e ∷ s) ne = ground (arith, replace_from-removes c d s ne)

pub replace-removes :
    (c d : ℕ) (s : Text) → (c == d) ≡ false → has_char (replace (c ∷ []) (d ∷ []) s) c ≡ false
unfolding replace
replace-removes c d s ne = replace_from-removes c d s ne

pub lower-lower : (s : Text) → lower (lower s) ≡ lower s
unfolding lower lower_char
lower-lower [] = refl
lower-lower (c ∷ s) = ground (arith, lower-lower s)

-- Lower case brings in no character that is not a letter.
pub has_char-lower :
    (s : Text) (c : ℕ) → c < 97 → has_char s c ≡ false → has_char (lower s) c ≡ false
unfolding lower lower_char has_char
has_char-lower [] c small h = refl
has_char-lower (d ∷ s) c small h = ground (arith, has_char-lower s c small)
