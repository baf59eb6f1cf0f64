-- ===== src/Regex/Progress.antt =====
-- What a match passes over: the text up to where it ends, and a character at least where the pattern
-- asks for one.
use myframe.Common.{
  ℕ, ◌≤◌, ◌<◌, ◌≡◌, inl, inr, refl, sym, ap, ◌∙◌, Bool, true, false, ◌&&◌, ◌||◌, [], ◌∷◌, ◌++◌,
  arith, length, Bool-cases, and-true, All, ==_iff,
}
use mathlib.Core.Path.{subst}
use mathlib.Core.List.{append_assoc}
use myframe.Text.{Text}
use myframe.Regex.{
  Regex, chr, eps, seq, alt, star, lazy_star, group, line_start, line_end, word_boundary, ahead,
  not_ahead, Cursor, consumed, capture, is_word, head_is_word, at_boundary,
}
use myframe.Regex.Classes.{literal}
use myframe.Regex.Meaning.{Leads, Rounds, stop, round}
use myframe.Regex.Groups.{Leads-le}
use myframe.Regex.Stars.{consumed-append}

-- The text from one place on ends with the text from the other on.
abbrev Passed : Cursor → Cursor → Type 0
Passed c d = (pre : Text) × (c.rest ≡ pre ++ d.rest)

Passed-same : (c d : Cursor) → d ≡ c → Passed c d
Passed-same c d e = ([], ap (λ (x : Cursor). x.rest) (sym e))

Passed-trans : (c d e : Cursor) → Passed c d → Passed d e → Passed c e
Passed-trans c d e (p, h) (q, k) = (p ++ q, h ∙ ap (λ t. p ++ t) k ∙ sym (append_assoc p q e.rest))

Rounds-Passed :
    (R : Cursor → Cursor → Type 0)
    → ((c d : Cursor) → R c d → Passed c d)
    → (c d : Cursor) → Rounds R c d
    → Passed c d
Rounds-Passed R step c d (stop _) = ([], refl)
Rounds-Passed R step c d (round _ e _ r lt rs) =
    Passed-trans c e d (step c e r) (Rounds-Passed R step e d rs)

Leads-Passed : (r : Regex) (c d : Cursor) → Leads r c d → Passed c d
unfolding capture
Leads-Passed (chr p) c d (x, s, e, px, ed) = (x ∷ [], e ∙ ap (λ (y : Cursor). x ∷ y.rest) (sym ed))
Leads-Passed eps c d e = Passed-same c d e
Leads-Passed (seq r q) c d (e, i, j) =
    Passed-trans c e d (Leads-Passed r c e i) (Leads-Passed q e d j)
Leads-Passed (alt r q) c d (inl h) = Leads-Passed r c d h
Leads-Passed (alt r q) c d (inr h) = Leads-Passed q c d h
Leads-Passed (star r) c d h = Rounds-Passed (Leads r) (λ c d. Leads-Passed r c d) c d h
Leads-Passed (lazy_star r) c d h = Rounds-Passed (Leads r) (λ c d. Leads-Passed r c d) c d h
Leads-Passed (group n r) c d (e, i, ed) =
    let (pre, h) = Leads-Passed r c e i in (pre, h ∙ ap (λ (y : Cursor). pre ++ y.rest) (sym ed))
Leads-Passed line_start c d (e, _) = Passed-same c d e
Leads-Passed line_end c d (e, _) = Passed-same c d e
Leads-Passed word_boundary c d (e, _) = Passed-same c d e
Leads-Passed (ahead r) c d (e, _) = Passed-same c d e
Leads-Passed (not_ahead r) c d (e, _) = Passed-same c d e

-- The text is what was consumed, and then the rest.
pub Leads-consumed : (r : Regex) (c d : Cursor) → Leads r c d → c.rest ≡ consumed c d ++ d.rest
Leads-consumed r c d h =
    let (pre, e) = Leads-Passed r c d h in
    e ∙ ap (λ t. t ++ d.rest) (sym (consumed-append c d pre e))

-- The pattern matches no empty text.
abbrev pub is_nonempty : Regex → Bool
is_nonempty (chr p) = true
is_nonempty (seq r q) = is_nonempty r || is_nonempty q
is_nonempty (alt r q) = is_nonempty r && is_nonempty q
is_nonempty (group n r) = is_nonempty r
is_nonempty _ = false

lt_of_lt_le : {a b c : ℕ} → a < b → b ≤ c → a < c
lt_of_lt_le p q = omega arith

lt_of_le_lt : {a b c : ℕ} → a ≤ b → b < c → a < c
lt_of_le_lt p q = omega arith

or-false : (b : Bool) → (false || b) ≡ true → b ≡ true
or-false b h = h

pub Leads-lt :
    (r : Regex) (c d : Cursor) → is_nonempty r ≡ true → Leads r c d → length d.rest < length c.rest
unfolding capture
Leads-lt (chr p) c d n (x, s, e, px, ed) = rw (e, ed) (omega arith)
Leads-lt (seq r q) c d n (e, i, j) = elim (Bool-cases (is_nonempty r)) [
  | inl some_r ↦ lt_of_le_lt (Leads-le q e d j) (Leads-lt r c e some_r i)
  | inr no_r ↦
      lt_of_lt_le
        (Leads-lt q e d (or-false (is_nonempty q) (subst (λ b. (b || is_nonempty q) ≡ true) no_r n))
          j)
        (Leads-le r c e i)
]
Leads-lt (alt r q) c d n (inl h) = Leads-lt r c d (and-true (is_nonempty r) (is_nonempty q) n).0 h
Leads-lt (alt r q) c d n (inr h) = Leads-lt q c d (and-true (is_nonempty r) (is_nonempty q) n).1 h
Leads-lt (group k r) c d n (e, i, ed) =
    subst (λ (x : Cursor). length x.rest < length c.rest) (sym ed) (Leads-lt r c e n i)
Leads-lt eps c d n h = cc
Leads-lt (star r) c d n h = cc
Leads-lt (lazy_star r) c d n h = cc
Leads-lt line_start c d n h = cc
Leads-lt line_end c d n h = cc
Leads-lt word_boundary c d n h = cc
Leads-lt (ahead r) c d n h = cc
Leads-lt (not_ahead r) c d n h = cc

-- Behind a literal word stands a character of a word.
pub literal-head_is_word :
    (x : ℕ) (t : Text) (c d : Cursor)
    → All (λ y. is_word y ≡ true) (x ∷ t)
    → Leads (literal (x ∷ t)) c d
    → head_is_word d.before ≡ true
literal-head_is_word x [] c d (w, _) (y, s, e, same, ed) =
    ap (λ (z : Cursor). head_is_word z.before) ed ∙ ap is_word ((==_iff y x).0 same) ∙ w
literal-head_is_word x (y ∷ t) c d (w, ws) (e, i, j) = literal-head_is_word y t e d ws j

-- Where a word ends at a boundary, no character of a word follows.
pub at_boundary-behind_word :
    (c : Cursor) → head_is_word c.before ≡ true → at_boundary c ≡ true → head_is_word c.rest ≡ false
unfolding at_boundary
at_boundary-behind_word c w h = ground arith
