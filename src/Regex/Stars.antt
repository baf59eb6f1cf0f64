-- ===== src/Regex/Stars.antt =====
-- A repetition of one character class: what it passes over.
use myframe.Common.{
  ℕ, zero, suc, ◌≡◌, refl, sym, ap, ◌∙◌, Bool, true, [], ◌∷◌, ◌++◌, length, length-append, take,
  arith, All,
}
use myframe.Text.{Text}
use myframe.Regex.{chr, Cursor, consumed}
use myframe.Regex.Meaning.{Leads, Rounds, stop, round}

-- It passes over characters of the class.
pub star_chr_sound :
    (p : ℕ → Bool) (c e : Cursor)
    → Rounds (Leads (chr p)) c e
    → (pre : Text) × (c.rest ≡ pre ++ e.rest) × All (λ x. p x ≡ true) pre
star_chr_sound p c e (stop _) = ([], refl, tt)
star_chr_sound p c e (round _ d _ (x, s, ec, px, ed) lt rs) =
    let (pre, ed', all) = star_chr_sound p d e rs in
    (x ∷ pre, ec ∙ ap (λ t. x ∷ t) (sym (ap (λ (y : Cursor). y.rest) ed) ∙ ed'), (px, all))

-- It can pass over any characters of the class.
pub star_chr_complete :
    (p : ℕ → Bool) (pre rest : Text) (c : Cursor)
    → c.rest ≡ pre ++ rest
    → All (λ x. p x ≡ true) pre
    → (e : Cursor) × Rounds (Leads (chr p)) c e × (e.rest ≡ rest)
star_chr_complete p [] rest c h a = (c, stop c, h)
star_chr_complete p (x ∷ pre) rest c h a =
    let d : Cursor = record c { before = x ∷ c.before; rest = pre ++ rest } in
    let (e, rs, r) = star_chr_complete p pre rest d refl a.1 in
    (e, round c d e (x, pre ++ rest, h, a.0, refl) (rw h (omega arith)) rs, r)

take-length-append : (pre rest : Text) (n : ℕ) → n ≡ length pre → take n (pre ++ rest) ≡ pre
take-length-append [] rest n h = rw h refl
take-length-append (x ∷ pre) rest zero h = absurd (omega arith)
take-length-append (x ∷ pre) rest (suc n) h =
    ap (λ t. x ∷ t) (take-length-append pre rest n (omega arith))

-- What was consumed between two places is what stands between them.
pub consumed-append : (c d : Cursor) (pre : Text) → c.rest ≡ pre ++ d.rest → consumed c d ≡ pre
consumed-append c d pre h =
    rw h (take-length-append pre d.rest _ (omega (arith, length-append pre d.rest)))
