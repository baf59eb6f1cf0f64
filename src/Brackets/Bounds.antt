-- ===== src/Brackets/Bounds.antt =====
-- Where CloseExpression may end.
use myframe.Common.{
  ℕ, zero, suc, ◌+◌, ◌≤◌, ◌≡◌, ◌≢◌, ◌⊎◌, refl, sym, ◌∙◌, inl, inr, Bool, true, not, ◌||◌, none,
  some, List, [], ◌∷◌, ◌==◌, length, drop, get_elem?, arith, Bool-cases, >>=-eq-some, some_inj,
}
use mathlib.Core.Path.{subst}
use myframe.Text.{Text, has_char, codes}
use myframe.Regex.{matches}
use myframe.Brackets.{
  Move, onward, close_here, give_up, Scan, found, unclosed, pending, is_close, less_than, end_move,
  find_end_from, find_end_of_expression_in_line, Place, close_in_rest, shift_pattern, close_from,
  close_expression,
}

abbrev pub closes : ℕ → Bool
closes c = is_close c || (c == b'>')

less_than-ne-close : (line : Text) (i : ℕ) (stack : List ℕ) → less_than line i stack ≢ close_here
unfolding less_than
less_than-ne-close line i stack e = ground arith

end_move-closes :
    (line : Text) (i c : ℕ) (stack : List ℕ)
    → end_move line i c stack ≡ close_here
    → closes c ≡ true
unfolding end_move
end_move-closes line i c stack e = ground (arith, less_than-ne-close line i stack)

-- The position is just behind a closing character of the text that was scanned.
abbrev pub EndsIn : ℕ → Text → ℕ → Type 0
EndsIn i rest p =
    (k : ℕ) × (c : ℕ) × (p ≡ i + k + 1) × (get_elem? rest k ≡ some c) × (closes c ≡ true)

EndsIn-later : (i c p : ℕ) (rest : Text) → EndsIn (suc i) rest p → EndsIn i (c ∷ rest) p
EndsIn-later i c p rest (k, d, at, there, closing) = (suc k, d, omega arith, there, closing)

found-injective : (p q : ℕ) → found p ≡ found q → p ≡ q
found-injective p q e = cc

pub find_end_from-EndsIn :
    (line : Text) (i : ℕ) (rest : Text) (stack : List ℕ) (p : ℕ)
    → find_end_from line i rest stack ≡ found p
    → EndsIn i rest p
unfolding find_end_from
find_end_from-EndsIn line i [] stack p e = cc
find_end_from-EndsIn line i (c ∷ rest) stack p e =
    by_move (end_move line i c stack) (λ m. end_move-closes line i c stack m) e
      (λ s. find_end_from-EndsIn line (suc i) rest s p)
  where
    by_move :
        (m : Move)
        → (m ≡ close_here → closes c ≡ true)
        → elim m as (λ _. Scan) [
          | onward s ↦ find_end_from line (suc i) rest s
          | close_here ↦ found (suc i)
          | give_up ↦ unclosed
        ]
          ≡ found p
        → ((s : List ℕ) → find_end_from line (suc i) rest s ≡ found p → EndsIn (suc i) rest p)
        → EndsIn i (c ∷ rest) p
    by_move (onward s) closing h ih = EndsIn-later i c p rest (ih s h)
    by_move close_here closing h ih =
        (0, c, omega (arith, found-injective (suc i) p h), refl, closing refl)
    by_move give_up closing h ih = cc

-- In a place that was found, the position is behind a closing character of its line, which is one of
-- the lines from `linenum` on.
abbrev pub IsClosing : List Text → ℕ → Place → ℕ → Type 0
IsClosing lines linenum r p =
    (linenum ≤ r.linenum) × (get_elem? lines r.linenum ≡ some r.line) × EndsIn 0 r.line p

get_elem?-drop {ℓ} :
    {A : Type ℓ} (xs : List A) (n k : ℕ) → get_elem? (drop n xs) k ≡ get_elem? xs (n + k)
get_elem?-drop xs zero k = let e : 0 + k ≡ k = omega arith in rw e
get_elem?-drop [] (suc n) k = refl
get_elem?-drop (x ∷ xs) (suc n) k =
    let e : suc n + k ≡ suc (n + k) = omega arith in rw e (get_elem?-drop xs n k)

EndsIn-drop : (line : Text) (n p : ℕ) → EndsIn n (drop n line) p → EndsIn 0 line p
EndsIn-drop line n p (k, c, at, there, closing) =
    (n + k, c, omega arith, sym (get_elem?-drop line n k) ∙ there, closing)

pub find_end-EndsIn :
    (line : Text) (n : ℕ) (stack : List ℕ) (p : ℕ)
    → find_end_of_expression_in_line line n stack ≡ found p
    → EndsIn 0 line p
unfolding find_end_of_expression_in_line
find_end-EndsIn line n stack p e =
    EndsIn-drop line n p (find_end_from-EndsIn line n (drop n line) stack p e)

abbrev pub ClosingOrNone : List Text → ℕ → Place → Type 0
ClosingOrNone lines n r =
    ((r.pos ≡ none) × (r.linenum ≡ length lines))
    ⊎ ((p : ℕ) × (r.pos ≡ some p) × IsClosing lines n r p)

drop-next :
    (lines : List Text) (n : ℕ) (next : Text) (rest : List Text)
    → drop n lines ≡ next ∷ rest
    → (get_elem? lines n ≡ some next) × (drop (suc n) lines ≡ rest)
drop-next [] zero next rest e = cc
drop-next [] (suc n) next rest e = cc
drop-next (x ∷ lines) zero next rest e = (cc, cc)
drop-next (x ∷ lines) (suc n) next rest e = drop-next lines n next rest e

close_in_rest-ClosingOrNone :
    (lines : List Text) (start n : ℕ) (line : Text) (rest : List Text) (scan : Scan)
    → start ≤ n
    → get_elem? lines n ≡ some line
    → drop (suc n) lines ≡ rest
    → ((p : ℕ) → scan ≡ found p → EndsIn 0 line p)
    → ClosingOrNone lines start (close_in_rest (length lines) line n rest scan)
unfolding close_in_rest
close_in_rest-ClosingOrNone lines start n line rest (found p) le at left ends =
    inr (p, refl, (le, at, ends p refl))
close_in_rest-ClosingOrNone lines start n line rest unclosed le at left ends = inl (refl, refl)
close_in_rest-ClosingOrNone lines start n line rest (pending []) le at left ends = inl (refl, refl)
close_in_rest-ClosingOrNone lines start n line [] (pending (c ∷ s)) le at left ends =
    inl (refl, refl)
close_in_rest-ClosingOrNone lines start n line (next ∷ rest) (pending (c ∷ s)) le at left ends =
    let (at', left') = drop-next lines (suc n) next rest left in
    close_in_rest-ClosingOrNone lines start (suc n) next rest
      (find_end_of_expression_in_line next 0 (c ∷ s)) (omega arith) at' left'
      (λ p e. find_end-EndsIn next 0 (c ∷ s) p e)

close_from-ClosingOrNone :
    (lines : List Text) (linenum : ℕ) (line : Text) (pos c : ℕ)
    → get_elem? lines linenum ≡ some line
    → ClosingOrNone lines linenum (close_from lines linenum line pos c)
unfolding close_from
close_from-ClosingOrNone lines linenum line pos c here =
    elim (Bool-cases (not (has_char (codes "({[<") c) || matches shift_pattern (drop pos line))) [
      | inl other ↦ rw other (inl (refl, refl))
      | inr bracket ↦ rw bracket (
          close_in_rest-ClosingOrNone lines linenum linenum line (drop (suc linenum) lines)
            (find_end_of_expression_in_line line pos []) (omega arith) here refl
            (λ p e. find_end-EndsIn line pos [] p e))
    ]

-- CloseExpression returns no position and the number of lines, or a position just behind a closing
-- character of the line that it returns, which is the given line or a later one.
pub close_expression-ClosingOrNone :
    (lines : List Text) (linenum pos : ℕ) (r : Place)
    → close_expression lines linenum pos ≡ some r
    → ClosingOrNone lines linenum r
unfolding close_expression
close_expression-ClosingOrNone lines linenum pos r e =
    let (line, here, e') = >>=-eq-some (get_elem? lines linenum) _ e in
    let (c, there, e'') = >>=-eq-some (get_elem? line pos) _ e' in
    subst (ClosingOrNone lines linenum) (some_inj _ _ e'')
      (close_from-ClosingOrNone lines linenum line pos c here)
