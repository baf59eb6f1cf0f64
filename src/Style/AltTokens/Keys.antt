-- ===== src/Style/AltTokens/Keys.antt =====
-- The tokens that CheckAltTokens finds.
use myframe.Common.{
  ℕ, zero, suc, ◌-◌, ◌≡◌, inl, inr, refl, sym, ap, ◌∙◌, true, Option, none, some, List, [], ◌∷◌,
  ◌++◌, arith, length, All, ==_iff,
}
use myframe.Text.{Text, is_one_of}
use myframe.Text.Laws.{text_eq_refl}
use myframe.Regex.{
  Regex, Cursor, run, first_found, consumed, Found, group_text, lookup_group, capture,
}
use myframe.Regex.Classes.{literal, one_text}
use myframe.Regex.Meaning.{Leads}
use myframe.Regex.Leftmost.{IsFound, Tried, first_found-Tried}
use myframe.Regex.Groups.{group_text-lookup}
use myframe.Regex.Stars.{consumed-append}
use myframe.Style.AltTokens.{alt_tokens, keys, alt_token_pattern, find_all}

literal_sound : (t : Text) (c d : Cursor) → Leads (literal t) c d → c.rest ≡ t ++ d.rest
literal_sound [] c d h = ap (λ (x : Cursor). x.rest) (sym h)
literal_sound (x ∷ []) c d (y, s, e, same, ed) =
    e ∙ rw ((==_iff y x).0 same) (ap (λ (z : Cursor). x ∷ z.rest) (sym ed))
literal_sound (x ∷ y ∷ t) c d (m, (z, s, e, same, em), j) =
    e
    ∙ rw ((==_iff z x).0 same)
        (ap (λ r. x ∷ r) (ap (λ (w : Cursor). w.rest) (sym em) ∙ literal_sound (y ∷ t) m d j))

literal-consumed : (t : Text) (c d : Cursor) → Leads (literal t) c d → consumed c d ≡ t
literal-consumed t c d h = consumed-append c d t (literal_sound t c d h)

-- What an alternative of texts passes over is one of them.
one_text-consumed :
    (t : Text) (ts : List Text) (c d : Cursor)
    → Leads (one_text (t ∷ ts)) c d
    → is_one_of (consumed c d) (t ∷ ts) ≡ true
unfolding is_one_of
one_text-consumed t [] c d h = rw (literal-consumed t c d h) (rw (text_eq_refl t) refl)
one_text-consumed t (u ∷ ts) c d (inl h) = rw (literal-consumed t c d h) (rw (text_eq_refl t) refl)
one_text-consumed t (u ∷ ts) c d (inr h) = ground (arith, one_text-consumed u ts c d h)

-- What holds of every match of a pattern holds of all that finditer yields.
find_all-All {ℓ} :
    (r : Regex) (P : Found → Type ℓ)
    → ((c : Cursor) (m : Found) → IsFound r c m → P m)
    → (skipped : ℕ) (before s : Text) → All P (find_all r skipped before s)
unfolding find_all
find_all-All r P holds skipped before [] = tt
find_all-All r P holds (suc skipped) before (c ∷ s) = find_all-All r P holds skipped (c ∷ before) s
find_all-All r P holds zero before (c ∷ s) =
    by_match (λ n. find_all-All r P holds n (c ∷ before) s)
      (first_found (length before) here (run r here)) (first_found-Tried r (length before) here)
  where
    here : Cursor
    here = record { before = before; rest = c ∷ s; groups = [] }

    by_match :
        ((n : ℕ) → All P (find_all r n (c ∷ before) s))
        → (o : Option Found) → Tried r (length before) here o
        → All P (elim o [
          | none ↦ find_all r 0 (c ∷ before) s
          | some m ↦ m ∷ find_all r (length m.text - 1) (c ∷ before) s
        ])
    by_match later none t = later 0
    by_match later (some m) (_, found) = (holds here m found, later (length m.text - 1))

alt_token-keys :
    (c : Cursor) (m : Found)
    → IsFound alt_token_pattern c m
    → is_one_of (group_text 1 m) (keys alt_tokens) ≡ true
unfolding alt_token_pattern capture alt_tokens
alt_token-keys c m (d, (a, la, (b, (b', lb, eb), (ed, _))), _, _, groups) =
    let one : lookup_group 1 m.groups ≡ some (consumed a b') =
      ap (lookup_group 1) groups ∙ ap (λ (x : Cursor). lookup_group 1 x.groups) (ed ∙ eb) in
    rw (group_text-lookup 1 m (consumed a b') one) (one_text-consumed _ _ a b' lb)

-- Every token that CheckAltTokens looks up is a key of the table: there is no KeyError.
pub alt_tokens-keys :
    (line : Text)
    → All
        (λ m. is_one_of (group_text 1 m) (keys alt_tokens) ≡ true)
        (find_all alt_token_pattern 0 [] line)
alt_tokens-keys line = find_all-All alt_token_pattern _ alt_token-keys 0 [] line
