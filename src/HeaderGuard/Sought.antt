-- ===== src/HeaderGuard/Sought.antt =====
-- The loop of CheckForHeaderGuard over the lines: #ifndef and #endif.
use myframe.Common.{
  ℕ, suc, ◌+◌, ◌≡◌, refl, ap, ◌∙◌, Bool, true, false, ◌&&◌, List, [], ◌∷◌, ◌++◌, if◌then◌else◌,
  length, arith, All,
}
use myframe.Text.{Text, codes, text_eq, starts_with}
use myframe.HeaderGuard.{
  Guards, no_guards, words, see_ifndef, see_define, see_endif, see_line, see_lines, is_empty,
}

see_lines-append :
    (n : ℕ) (xs ys : List Text) (g : Guards)
    → see_lines n (xs ++ ys) g ≡ see_lines (n + length xs) ys (see_lines n xs g)
unfolding see_lines
see_lines-append n [] ys g = ap (λ k. see_lines k ys g) (omega arith)
see_lines-append n (x ∷ xs) ys g =
    see_lines-append (suc n) xs ys (see_line n x g)
    ∙ ap (λ k. see_lines k ys (see_lines (suc n) xs (see_line n x g))) (omega arith)

abbrev pub is_endif : Text → Bool
is_endif line = starts_with line (codes "#endif")

-- The line names a guard: its first word is #ifndef, and a second one follows.
abbrev pub names_guard : List Text → Bool
names_guard (w ∷ name ∷ ws) = text_eq w (codes "#ifndef")
names_guard _ = false

see_endif-other :
    (n : ℕ) (line : Text) (g : Guards) → is_endif line ≡ false → see_endif n line g ≡ g
unfolding see_endif
see_endif-other n line g h = rw h refl

-- The fields that the later of the three steps do not touch
abbrev SameGuard : Guards → Guards → Type 0
SameGuard g h = (g.ifndef ≡ h.ifndef) × (g.ifndef_linenum ≡ h.ifndef_linenum)

abbrev SameEndif : Guards → Guards → Type 0
SameEndif g h = (g.endif ≡ h.endif) × (g.endif_linenum ≡ h.endif_linenum)

SameGuard-if :
    (b : Bool) (g h k : Guards) → SameGuard g k → SameGuard h k → SameGuard (if b then g else h) k
SameGuard-if true g h k p q = p
SameGuard-if false g h k p q = q

SameEndif-if :
    (b : Bool) (g h k : Guards) → SameEndif g k → SameEndif h k → SameEndif (if b then g else h) k
SameEndif-if true g h k p q = p
SameEndif-if false g h k p q = q

see_define-SameGuard : (ws : List Text) (g : Guards) → SameGuard (see_define ws g) g
unfolding see_define
see_define-SameGuard [] g = (refl, refl)
see_define-SameGuard (w ∷ []) g = (refl, refl)
see_define-SameGuard (w ∷ name ∷ ws) g = SameGuard-if _ _ _ g (refl, refl) (refl, refl)

see_define-SameEndif : (ws : List Text) (g : Guards) → SameEndif (see_define ws g) g
unfolding see_define
see_define-SameEndif [] g = (refl, refl)
see_define-SameEndif (w ∷ []) g = (refl, refl)
see_define-SameEndif (w ∷ name ∷ ws) g = SameEndif-if _ _ _ g (refl, refl) (refl, refl)

see_ifndef-SameEndif : (n : ℕ) (ws : List Text) (g : Guards) → SameEndif (see_ifndef n ws g) g
unfolding see_ifndef
see_ifndef-SameEndif n [] g = (refl, refl)
see_ifndef-SameEndif n (w ∷ []) g = (refl, refl)
see_ifndef-SameEndif n (w ∷ name ∷ ws) g = SameEndif-if _ _ _ g (refl, refl) (refl, refl)

see_endif-SameGuard : (n : ℕ) (line : Text) (g : Guards) → SameGuard (see_endif n line g) g
unfolding see_endif
see_endif-SameGuard n line g = SameGuard-if _ _ _ g (refl, refl) (refl, refl)

both_trans : {a b c : Text} {i j k : ℕ} → (a ≡ b) × (i ≡ j) → (b ≡ c) × (j ≡ k) → (a ≡ c) × (i ≡ k)
both_trans (p, q) (p', q') = (p ∙ p', q ∙ q')

-- A line that is no #endif keeps what is known of the #endif.
see_line-SameEndif :
    (n : ℕ) (line : Text) (g : Guards) → is_endif line ≡ false → SameEndif (see_line n line g) g
unfolding see_line
see_line-SameEndif n line g h =
    rw (see_endif-other n line (see_define (words line) (see_ifndef n (words line) g)) h) (
      both_trans (see_define-SameEndif (words line) (see_ifndef n (words line) g))
        (see_ifndef-SameEndif n (words line) g))

see_lines-SameEndif :
    (n : ℕ) (lines : List Text) (g : Guards)
    → All (λ l. is_endif l ≡ false) lines
    → SameEndif (see_lines n lines g) g
unfolding see_lines
see_lines-SameEndif n [] g h = (refl, refl)
see_lines-SameEndif n (l ∷ lines) g h =
    let (p, q) = see_lines-SameEndif (suc n) lines (see_line n l g) h.1 in
    let (p', q') = see_line-SameEndif n l g h.0 in (p ∙ p', q ∙ q')

see_line-endif :
    (n : ℕ) (line : Text) (g : Guards)
    → is_endif line ≡ true
    → ((see_line n line g).endif ≡ line) × ((see_line n line g).endif_linenum ≡ n)
unfolding see_line see_endif
see_line-endif n line g h = rw h (refl, refl)

-- The #endif that CheckForHeaderGuard looks at is the last line that begins with one, with its number.
pub see_lines-endif :
    (before after : List Text) (line : Text)
    → is_endif line ≡ true
    → All (λ l. is_endif l ≡ false) after
    → let g = see_lines 0 (before ++ line ∷ after) no_guards in
      (g.endif ≡ line) × (g.endif_linenum ≡ length before)
see_lines-endif before after line h none_after =
    let n = 0 + length before in
    let g = see_lines 0 before no_guards in
    let split_up = see_lines-append 0 before (line ∷ after) no_guards in
    let (p, q) = see_lines-SameEndif (suc n) after (see_line n line g) none_after in
    let (p', q') = see_line-endif n line g h in
    (
      ap (λ (x : Guards). x.endif) (split_up ∙ opened n g) ∙ p ∙ p',
      ap (λ (x : Guards). x.endif_linenum) (split_up ∙ opened n g) ∙ q ∙ q' ∙ omega arith,
    )
  where
    opened :
        (n : ℕ) (g : Guards)
        → see_lines n (line ∷ after) g ≡ see_lines (suc n) after (see_line n line g)
    opened n g = unfold see_lines in refl

see_ifndef-other :
    (n : ℕ) (ws : List Text) (g : Guards)
    → (is_empty g.ifndef && names_guard ws) ≡ false
    → see_ifndef n ws g ≡ g
unfolding see_ifndef
see_ifndef-other n [] g h = refl
see_ifndef-other n (w ∷ []) g h = refl
see_ifndef-other n (w ∷ name ∷ ws) g h = rw h refl

-- What the line makes of the guard is what its words do.
see_line-SameGuard :
    (n : ℕ) (line : Text) (g : Guards) → SameGuard (see_line n line g) (see_ifndef n (words line) g)
unfolding see_line
see_line-SameGuard n line g =
    both_trans (see_endif-SameGuard n line (see_define (words line) (see_ifndef n (words line) g)))
      (see_define-SameGuard (words line) (see_ifndef n (words line) g))

see_lines-no_guard :
    (n : ℕ) (lines : List Text) (g : Guards)
    → All (λ l. names_guard (words l) ≡ false) lines
    → SameGuard (see_lines n lines g) g
unfolding see_lines
see_lines-no_guard n [] g h = (refl, refl)
see_lines-no_guard n (l ∷ lines) g h =
    let other : see_ifndef n (words l) g ≡ g =
      see_ifndef-other n (words l) g (rw h.0 (and_false (is_empty g.ifndef))) in
    both_trans (see_lines-no_guard (suc n) lines (see_line n l g) h.1) (
      both_trans (see_line-SameGuard n l g)
        (ap (λ (x : Guards). x.ifndef) other, ap (λ (x : Guards). x.ifndef_linenum) other))
  where
    and_false : (b : Bool) → (b && false) ≡ false
    and_false b = ground arith

see_lines-guarded :
    (n : ℕ) (lines : List Text) (g : Guards)
    → is_empty g.ifndef ≡ false
    → SameGuard (see_lines n lines g) g
unfolding see_lines
see_lines-guarded n [] g h = (refl, refl)
see_lines-guarded n (l ∷ lines) g h =
    let other : see_ifndef n (words l) g ≡ g = see_ifndef-other n (words l) g (rw h refl) in
    let here : SameGuard (see_line n l g) g =
      both_trans (see_line-SameGuard n l g)
        (ap (λ (x : Guards). x.ifndef) other, ap (λ (x : Guards). x.ifndef_linenum) other) in
    both_trans (see_lines-guarded (suc n) lines (see_line n l g) (ap is_empty here.0 ∙ h)) here

see_ifndef-first :
    (n c : ℕ) (name : Text) (ws : List Text) (g : Guards)
    → g.ifndef ≡ []
    → let g' = see_ifndef n (codes "#ifndef" ∷ (c ∷ name) ∷ ws) g in
      (g'.ifndef ≡ c ∷ name) × (g'.ifndef_linenum ≡ n)
unfolding see_ifndef text_eq
see_ifndef-first n c name ws g e = rw e (refl, refl)

-- The guard that CheckForHeaderGuard looks at is the second word of the first line that has two words
-- and begins with the word #ifndef, with the number of that line.
pub see_lines-ifndef :
    (before after : List Text) (line : Text) (c : ℕ) (name : Text) (ws : List Text)
    → All (λ l. names_guard (words l) ≡ false) before
    → words line ≡ codes "#ifndef" ∷ (c ∷ name) ∷ ws
    → let g = see_lines 0 (before ++ line ∷ after) no_guards in
      (g.ifndef ≡ c ∷ name) × (g.ifndef_linenum ≡ length before)
see_lines-ifndef before after line c name ws none_before e =
    let n = 0 + length before in
    let g = see_lines 0 before no_guards in
    let (empty, _) = see_lines-no_guard 0 before no_guards none_before in
    let whole = see_lines-append 0 before (line ∷ after) no_guards ∙ opened n g in
    let (p, q) = see_line-SameGuard n line g in
    let (p', q') = see_ifndef-first n c name ws g empty in
    let named = ap (λ v. see_ifndef n v g) e in
    let found : (see_line n line g).ifndef ≡ c ∷ name =
      p ∙ ap (λ (x : Guards). x.ifndef) named ∙ p' in
    let (r, s) = see_lines-guarded (suc n) after (see_line n line g) (ap is_empty found) in
    (
      ap (λ (x : Guards). x.ifndef) whole ∙ r ∙ found,
      ap (λ (x : Guards). x.ifndef_linenum) whole
          ∙ s
          ∙ q
          ∙ ap (λ (x : Guards). x.ifndef_linenum) named
          ∙ q'
          ∙ omega arith,
    )
  where
    opened :
        (n : ℕ) (g : Guards)
        → see_lines n (line ∷ after) g ≡ see_lines (suc n) after (see_line n line g)
    opened n g = unfold see_lines in refl
