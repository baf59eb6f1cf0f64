-- ===== src/Nesting/Tokens/FirstToken.antt =====
-- The pattern of the tokens of a line: what it finds is the first of them.
use myframe.Common.{
  ℕ, ◌<◌, ◌≡◌, refl, sym, ap, ◌∙◌, Bool, true, false, not, Option, none, some, [], ◌∷◌, ◌++◌,
  if◌then◌else◌, ◌==◌, some_inj, inl, inr, length, length-append, arith, All, Bool-cases,
  Option-cases,
}
use mathlib.Core.Path.{subst}
use mathlib.Core.List.{append-nil}
use myframe.Text.{Text, codes, has_char}
use myframe.Regex.{
  Regex, chr, star, group, line_start, line_end, ◌&◌, Cursor, start, capture, Found, group_text,
  lookup_group, match_pattern, at_end,
}
use myframe.Regex.Classes.{dot}
use myframe.Regex.Meaning.{Leads}
use myframe.Regex.Leftmost.{IsFound, Nothing}
use myframe.Regex.Groups.{match_pattern-IsFound, match_pattern-Nothing, Leads-groups}
use myframe.Regex.Stars.{star_chr_sound, star_chr_complete, consumed-append}
use myframe.Nesting.Tokens.{token_pattern}

abbrev pub is_token : ℕ → Bool
is_token c = has_char (codes "{;)}") c

-- The first token of a text, with what stands behind it
abbrev pub first_token : Text → Option (ℕ × Text)
first_token [] = none
first_token (c ∷ s) = if is_token c then some (c, s) else first_token s

has_char-right : (pre t : Text) (c : ℕ) → has_char (pre ++ t) c ≡ false → has_char t c ≡ false
unfolding has_char
has_char-right [] t c h = h
has_char-right (x ∷ pre) t c h = has_char-right pre t c (ground arith)

at_end-nil : (pre r : Text) → at_end r ≡ true → has_char (pre ++ r) 10 ≡ false → r ≡ []
unfolding at_end has_char
at_end-nil pre [] h k = refl
at_end-nil pre (x ∷ []) h k = absurd (contradiction x h (has_char-right pre (x ∷ []) 10 k))
  where
    contradiction : (x : ℕ) → at_end (x ∷ []) ≡ true → has_char (x ∷ []) 10 ≡ false → ⊥
    contradiction x h k = ground arith
at_end-nil pre (x ∷ y ∷ r) h k = cc

-- The pattern, for any two classes of characters
abbrev shape : (ℕ → Bool) → (ℕ → Bool) → Regex
shape p q = line_start & star (chr p) & group 1 (chr q) & group 2 (star dot) & line_end

-- What a way through the pattern passes over
abbrev Parts : (ℕ → Bool) → (ℕ → Bool) → Text → Cursor → Type 0
Parts p q s d =
    (pre : Text) × (c : ℕ) × (rest : Text) × (s ≡ pre ++ c ∷ rest)
    × All (λ x. p x ≡ true) pre
    × (q c ≡ true)
    × (lookup_group 1 d.groups ≡ some (c ∷ []))
    × (lookup_group 2 d.groups ≡ some rest)

shape-Parts :
    (p q : ℕ → Bool) (s : Text) (d : Cursor)
    → has_char s 10 ≡ false
    → Leads (shape p q) (start s) d
    → Parts p q s d
unfolding capture
shape-Parts p q s d clean
      (a, (ea, _), (b, rb, (e, (e', (c, t, ec, qc, ee'), ee), (g, (g', rg, eg), (ed, stops))))) =
    let (pre, from_a, all) = star_chr_sound p a b rb in
    let (body, from_e, _) = star_chr_sound _ e g' rg in
    let e_rest : e.rest ≡ t = rw (ee, ee') refl in
    let g_rest : g.rest ≡ g'.rest = rw eg refl in
    let whole : s ≡ pre ++ c ∷ (body ++ g'.rest) =
      ap (λ (x : Cursor). x.rest) (sym ea)
      ∙ from_a
      ∙ ap (λ r. pre ++ r) (ec ∙ ap (λ r. c ∷ r) (sym e_rest ∙ from_e)) in
    let over : g'.rest ≡ [] = at_end-nil body g'.rest (rw (← g_rest) stops) (
      has_char-right (c ∷ []) (body ++ g'.rest) 10
        (has_char-right pre (c ∷ (body ++ g'.rest)) 10 (rw (← whole) clean))) in
    let e_groups : e.groups ≡ (1, c ∷ []) ∷ e'.groups =
      ap (λ (x : Cursor). x.groups) ee
      ∙ ap (λ t. (1, t) ∷ e'.groups)
          (consumed-append b e' (c ∷ [])
            (ec ∙ ap (λ r. c ∷ r) (sym (ap (λ (x : Cursor). x.rest) ee')))) in
    let g_groups : g.groups ≡ (2, body) ∷ (1, c ∷ []) ∷ e'.groups =
      ap (λ (x : Cursor). x.groups) eg
      ∙ ap (λ t. (2, t) ∷ g'.groups) (consumed-append e g' body from_e)
      ∙ ap (λ t. (2, body) ∷ t) (Leads-groups (star dot) e g' refl rg ∙ e_groups) in
    let d_groups = ap (λ (x : Cursor). x.groups) ed ∙ g_groups in
    (
      pre,
      c,
      body,
      whole ∙ ap (λ r. pre ++ c ∷ r) (ap (λ r. body ++ r) over ∙ append-nil body),
      all,
      qc,
      ap (lookup_group 1) d_groups,
      ap (lookup_group 2) d_groups,
    )

first_token-append :
    (pre rest : Text) (c : ℕ)
    → All (λ x. not (is_token x) ≡ true) pre
    → is_token c ≡ true
    → first_token (pre ++ c ∷ rest) ≡ some (c, rest)
first_token-append [] rest c all q = rw q refl
first_token-append (x ∷ pre) rest c all q =
    let plain : is_token x ≡ false = ground arith in
    rw plain (first_token-append pre rest c all.1 q)

first_token_split :
    (s : Text) (c : ℕ) (rest : Text)
    → first_token s ≡ some (c, rest)
    → (pre : Text) × (s ≡ pre ++ c ∷ rest)
      × All (λ x. not (is_token x) ≡ true) pre
      × (is_token c ≡ true)
first_token_split [] c rest h = cc
first_token_split (x ∷ s) c rest h = elim (Bool-cases (is_token x)) [
  | inl t ↦
      let same : (x, s) ≡ (c, rest) =
        some_inj _ _
          (subst (λ b. (if b then some (x, s) else first_token s) ≡ some (c, rest)) t h) in
      (
        [],
        ap (λ (y : ℕ × Text). y.0 ∷ y.1) same,
        tt,
        ap (λ (y : ℕ × Text). is_token y.0) (sym same) ∙ t,
      )
  | inr f ↦
      let (pre, e, all, q) =
        first_token_split s c rest
          (subst (λ b. (if b then some (x, s) else first_token s) ≡ some (c, rest)) f h) in
      (x ∷ pre, ap (λ r. x ∷ r) e, (rw f refl, all), q)
]

pub first_token-rest :
    (line : Text) (c : ℕ) (rest : Text)
    → first_token line ≡ some (c, rest)
    → has_char line 10 ≡ false
    → (length rest < length line) × (has_char rest 10 ≡ false)
first_token-rest line c rest h clean =
    let (pre, e, _, _) = first_token_split line c rest h in
    (
      rw e (omega (arith, length-append pre (c ∷ rest))),
      has_char-right (c ∷ []) rest 10 (has_char-right pre (c ∷ rest) 10 (rw (← e) clean)),
    )

all_dots : (s : Text) → has_char s 10 ≡ false → All (λ x. not (x == 10) ≡ true) s
unfolding has_char
all_dots [] h = tt
all_dots (c ∷ s) h = (ground arith, all_dots s (ground arith))

-- A text with a token in it is matched by the pattern.
shape_complete :
    (p q : ℕ → Bool) (s pre rest : Text) (c : ℕ)
    → s ≡ pre ++ c ∷ rest
    → All (λ x. p x ≡ true) pre
    → q c ≡ true
    → All (λ x. not (x == 10) ≡ true) rest
    → (d : Cursor) × Leads (shape p q) (start s) d
unfolding capture at_end
shape_complete p q s pre rest c e all qc dots =
    let (b, rb, eb) = star_chr_complete p pre (c ∷ rest) (start s) e all in
    let e' : Cursor = record b { before = c ∷ b.before; rest = rest } in
    let (g', rg, eg) =
      star_chr_complete (λ x. not (x == 10)) rest [] (capture 1 b e') (sym (append-nil rest))
        dots in
    (
      capture 2 (capture 1 b e') g',
      (
        start s,
        (refl, refl),
        (
          b,
          rb,
          (
            capture 1 b e',
            (e', (c, rest, eb, qc, refl), refl),
            (capture 2 (capture 1 b e') g', (g', rg, refl), (refl, rw eg refl)),
          ),
        ),
      ),
    )

-- What a match of the pattern tells of the first token.
abbrev pub Matched : Text → Option Found → Type 0
Matched line none = first_token line ≡ none
Matched line (some m) =
    (c : ℕ) × (rest : Text) × (first_token line ≡ some (c, rest))
    × (group_text 1 m ≡ c ∷ [])
    × (group_text 2 m ≡ rest)

no_token :
    (line : Text)
    → has_char line 10 ≡ false
    → Nothing token_pattern (start line)
    → (o : Option (ℕ × Text)) → first_token line ≡ o
    → o ≡ none
unfolding token_pattern
no_token line clean nothing none e = refl
no_token line clean nothing (some (c, rest)) e =
    let (pre, split, all, qc) = first_token_split line c rest e in
    let (d, leads) =
      shape_complete _ _ line pre rest c split all qc
        (all_dots rest ((first_token-rest line c rest e clean).1)) in
    absurd (nothing d leads)

first_match :
    (line : Text) (m : Found)
    → has_char line 10 ≡ false
    → IsFound token_pattern (start line) m
    → Matched line (some m)
unfolding token_pattern
first_match line m clean (d, leads, _, _, groups) =
    let (pre, c, rest, split, all, qc, one, two) = shape-Parts _ _ line d clean leads in
    (
      c,
      rest,
      ap first_token split ∙ first_token-append pre rest c all qc,
      ap (λ (o : Option Text). elim o [ none ↦ [] | some t ↦ t ])
          (ap (lookup_group 1) groups ∙ one),
      ap (λ (o : Option Text). elim o [ none ↦ [] | some t ↦ t ])
          (ap (lookup_group 2) groups ∙ two),
    )

pub token_match :
    (line : Text) → has_char line 10 ≡ false → Matched line (match_pattern token_pattern line)
token_match line clean = elim (Option-cases (match_pattern token_pattern line)) [
  | inl e ↦ rw e (no_token line clean (match_pattern-Nothing token_pattern line e) _ refl)
  | inr (m, e) ↦ rw e (first_match line m clean (match_pattern-IsFound token_pattern line m e))
]
