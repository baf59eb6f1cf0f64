-- ===== src/Brackets/Balanced.antt =====
-- Balanced text, and the scan of FindEndOfExpressionInLine over it.
use myframe.Common.{
  ℕ, suc, ◌+◌, ◌≡◌, refl, sym, ap, ◌∙◌, Bool, true, false, not, ◌||◌, some, List, [], ◌∷◌, ◌++◌,
  ◌==◌, length, length-append, drop, get_elem?, arith,
}
use mathlib.Core.List.{append-nil, append_assoc}
use myframe.Text.{Text}
use myframe.Brackets.{
  Move, onward, close_here, give_up, Scan, found, unclosed, pending, drop_top, popped, pairs,
  is_open, is_close, end_move, find_end_from,
}

-- A character that the scan passes over, within a bracket: no bracket, `<` or `>`.
abbrev pub is_plain : ℕ → Bool
is_plain c = not (is_open c || (is_close c || ((c == b'<') || (c == b'>'))))

-- Text without `<` and `>` whose brackets stand in pairs, one inside another or side by side.
pub data Balanced : Text → Type 0 where
  nil : Balanced []
  plain : (c : ℕ) (w : Text) → is_plain c ≡ true → Balanced w → Balanced (c ∷ w)
  wrap :
      (o c : ℕ) (w v : Text)
      → pairs o c ≡ true
      → Balanced w
      → Balanced v
      → (t : Text) → t ≡ o ∷ w ++ c ∷ v
      → Balanced t

end_move-plain :
    (line : Text) (i c d : ℕ) (s : List ℕ)
    → is_plain c ≡ true
    → (d == b'<') ≡ false
    → end_move line i c (d ∷ s) ≡ onward (d ∷ s)
unfolding end_move drop_top
end_move-plain line i c d s p q = ground arith

pub open-ne-less : (o c : ℕ) → pairs o c ≡ true → (o == b'<') ≡ false
open-ne-less o c p = ground arith

end_move-open :
    (line : Text) (i o c : ℕ) (s : List ℕ) → pairs o c ≡ true → end_move line i o s ≡ onward (o ∷ s)
unfolding end_move
end_move-open line i o c s p = ground arith

-- The bracket that closes takes the one that opened off the stack.
end_move-close :
    (line : Text) (i o c : ℕ) (s : List ℕ)
    → pairs o c ≡ true
    → end_move line i c (o ∷ s) ≡ popped close_here s
unfolding end_move drop_top
end_move-close line i o c s p = ground arith

after_move : Text → ℕ → Text → Move → Scan
after_move line i rest (onward s) = find_end_from line (suc i) rest s
after_move line i rest close_here = found (suc i)
after_move line i rest give_up = unclosed

find_end-step :
    (line : Text) (i c : ℕ) (rest : Text) (s : List ℕ) (m : Move)
    → end_move line i c s ≡ m
    → find_end_from line i (c ∷ rest) s ≡ after_move line i rest m
unfolding find_end_from after_move
find_end-step line i c rest s m e =
    ap
      (λ m. elim m as (λ _. Scan) [
        | onward s ↦ find_end_from line (suc i) rest s
        | close_here ↦ found (suc i)
        | give_up ↦ unclosed
      ])
      e
    ∙ by_move m
  where
    by_move :
        (m : Move)
        → elim m as (λ _. Scan) [
          | onward s ↦ find_end_from line (suc i) rest s
          | close_here ↦ found (suc i)
          | give_up ↦ unclosed
        ]
          ≡ after_move line i rest m
    by_move (onward s) = refl
    by_move close_here = refl
    by_move give_up = refl

wrap_length :
    (i o c : ℕ) (w v t : Text)
    → t ≡ o ∷ w ++ c ∷ v
    → suc (suc i + length w) + length v ≡ i + length t
wrap_length i o c w v t e = omega (arith, ap (length {A = ℕ}) e, length-append w (c ∷ v))

-- Over balanced text, inside at least one bracket, the scan comes out with the stack that it had.
pub find_end_from-Balanced :
    {w : Text}
    → Balanced w
    → (line : Text) (i d : ℕ) (s : List ℕ) (rest : Text) → (d == b'<') ≡ false
    → find_end_from line i (w ++ rest) (d ∷ s) ≡ find_end_from line (i + length w) rest (d ∷ s)
unfolding after_move
find_end_from-Balanced nil line i d s rest q = let e : i + 0 ≡ i = omega arith in rw e
find_end_from-Balanced (plain c w p b) line i d s rest q =
    find_end-step line i c (w ++ rest) (d ∷ s) _ (end_move-plain line i c d s p q)
    ∙ find_end_from-Balanced b line (suc i) d s rest q
    ∙ ap (λ n. find_end_from line n rest (d ∷ s)) (omega arith)
find_end_from-Balanced (wrap o c w v p bw bv t e) line i d s rest q =
    ap (λ t. find_end_from line i (t ++ rest) (d ∷ s)) e
    ∙ ap (λ r. find_end_from line i (o ∷ r) (d ∷ s)) (append_assoc w (c ∷ v) rest)
    ∙ find_end-step line i o (w ++ (c ∷ v ++ rest)) (d ∷ s) _ (end_move-open line i o c (d ∷ s) p)
    ∙ find_end_from-Balanced bw line (suc i) o (d ∷ s) (c ∷ v ++ rest) (open-ne-less o c p)
    ∙ find_end-step line (suc i + length w) c (v ++ rest) (o ∷ d ∷ s) _
        (end_move-close line (suc i + length w) o c (d ∷ s) p)
    ∙ find_end_from-Balanced bv line (suc (suc i + length w)) d s rest q
    ∙ ap (λ n. find_end_from line n rest (d ∷ s)) (wrap_length i o c w v t e)

-- From a bracket on, the scan finds the bracket that closes it.
pub find_end_from-expression :
    {w : Text}
    → Balanced w
    → (line : Text) (i o c : ℕ) (rest : Text) → pairs o c ≡ true
    → find_end_from line i (o ∷ w ++ c ∷ rest) [] ≡ found (i + length w + 2)
unfolding after_move
find_end_from-expression {w} b line i o c rest p =
    find_end-step line i o (w ++ c ∷ rest) [] _ (end_move-open line i o c [] p)
    ∙ find_end_from-Balanced b line (suc i) o [] (c ∷ rest) (open-ne-less o c p)
    ∙ find_end-step line (suc i + length w) c rest (o ∷ []) _
        (end_move-close line (suc i + length w) o c [] p)
    ∙ ap found (omega arith)

-- The last line of an expression that began on an earlier one.
pub find_end_from-last_line :
    {w : Text}
    → Balanced w
    → (line : Text) (i o c : ℕ) (rest : Text) → pairs o c ≡ true
    → find_end_from line i (w ++ c ∷ rest) (o ∷ []) ≡ found (i + length w + 1)
unfolding after_move
find_end_from-last_line {w} b line i o c rest p =
    find_end_from-Balanced b line i o [] (c ∷ rest) (open-ne-less o c p)
    ∙ find_end-step line (i + length w) c rest (o ∷ []) _
        (end_move-close line (i + length w) o c [] p)
    ∙ ap found (omega arith)

pub get_elem?-append :
    (pre : Text) (c : ℕ) (rest : Text) → get_elem? (pre ++ c ∷ rest) (length pre) ≡ some c
get_elem?-append [] c rest = refl
get_elem?-append (x ∷ pre) c rest = get_elem?-append pre c rest

pub drop-append : (pre rest : Text) → drop (length pre) (pre ++ rest) ≡ rest
drop-append [] rest = refl
drop-append (x ∷ pre) rest = drop-append pre rest

-- A first line that ends inside the bracket.
pub find_end_from-open :
    {w : Text}
    → Balanced w
    → (line : Text) (i o c : ℕ) → pairs o c ≡ true
    → find_end_from line i (o ∷ w) [] ≡ pending (o ∷ [])
unfolding after_move find_end_from
find_end_from-open {w} b line i o c p =
    ap (λ r. find_end_from line i (o ∷ r) []) (sym (append-nil w))
    ∙ find_end-step line i o (w ++ []) [] _ (end_move-open line i o c [] p)
    ∙ find_end_from-Balanced b line (suc i) o [] [] (open-ne-less o c p)
