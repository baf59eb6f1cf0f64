-- ===== src/Regex/Groups.antt =====
-- What a match tells of the text that was passed and of the groups.
use myframe.Common.{
  ℕ, zero, suc, ◌-◌, ◌≤◌, ◌≡◌, refl, sym, ◌∙◌, Bool, true, false, ◌&&◌, none, some, [], ◌∷◌, arith,
  inl, inr, length, take, and-true,
}
use mathlib.Core.Path.{subst}
use myframe.Text.{Text}
use myframe.Regex.{
  Regex, chr, eps, seq, alt, star, lazy_star, group, line_start, line_end, word_boundary, ahead,
  not_ahead, Cursor, start, consumed, capture, Found, lookup_group, group_text, match_pattern,
}
use myframe.Regex.Meaning.{Leads, Rounds, stop, round}
use myframe.Regex.Leftmost.{IsFound, Nothing, Tried, first_found-Tried}

-- What Match returns is a way from the start of the text.
pub match_pattern-IsFound :
    (r : Regex) (s : Text) (m : Found) → match_pattern r s ≡ some m → IsFound r (start s) m
unfolding match_pattern
match_pattern-IsFound r s m h =
    (subst (λ o. Tried r 0 (start s) o) h (first_found-Tried r 0 (start s))).1

le_trans : {a b c : ℕ} → a ≤ b → b ≤ c → a ≤ c
le_trans p q = omega arith

Rounds-le :
    (R : Cursor → Cursor → Type 0) (c d : Cursor) → Rounds R c d → length d.rest ≤ length c.rest
Rounds-le R c d (stop _) = omega arith
Rounds-le R c d (round _ e _ r lt rs) = le_trans (Rounds-le R e d rs) (omega arith)

captured :
    (n : ℕ) (c e : Cursor)
    → length e.rest ≤ length c.rest
    → length (capture n c e).rest ≤ length c.rest
unfolding capture
captured n c e h = h

pub Leads-le : (r : Regex) (c d : Cursor) → Leads r c d → length d.rest ≤ length c.rest
Leads-le (chr p) c d (x, s, e, px, ed) = rw (e, ed) (omega arith)
Leads-le eps c d e = rw e (omega arith)
Leads-le (seq r q) c d (e, i, j) = le_trans (Leads-le q e d j) (Leads-le r c e i)
Leads-le (alt r q) c d (inl h) = Leads-le r c d h
Leads-le (alt r q) c d (inr h) = Leads-le q c d h
Leads-le (star r) c d h = Rounds-le (Leads r) c d h
Leads-le (lazy_star r) c d h = Rounds-le (Leads r) c d h
Leads-le (group n r) c d (e, i, ed) =
    subst (λ x. length x.rest ≤ length c.rest) (sym ed) (captured n c e (Leads-le r c e i))
Leads-le line_start c d (e, _) = rw e (omega arith)
Leads-le line_end c d (e, _) = rw e (omega arith)
Leads-le word_boundary c d (e, _) = rw e (omega arith)
Leads-le (ahead r) c d (e, _) = rw e (omega arith)
Leads-le (not_ahead r) c d (e, _) = rw e (omega arith)

-- The pattern has no numbered group outside its lookaheads, whose groups are not kept.
abbrev pub is_bare : Regex → Bool
is_bare (seq r q) = is_bare r && is_bare q
is_bare (alt r q) = is_bare r && is_bare q
is_bare (star r) = is_bare r
is_bare (lazy_star r) = is_bare r
is_bare (group n r) = false
is_bare _ = true

Rounds-groups :
    (R : Cursor → Cursor → Type 0)
    → ((c d : Cursor) → R c d → d.groups ≡ c.groups)
    → (c d : Cursor) → Rounds R c d
    → d.groups ≡ c.groups
Rounds-groups R same c d (stop _) = refl
Rounds-groups R same c d (round _ e _ r lt rs) = Rounds-groups R same e d rs ∙ same c e r

pub Leads-groups : (r : Regex) (c d : Cursor) → is_bare r ≡ true → Leads r c d → d.groups ≡ c.groups
Leads-groups (chr p) c d b (x, s, e, px, ed) = rw ed refl
Leads-groups eps c d b e = rw e refl
Leads-groups (seq r q) c d b (e, i, j) =
    Leads-groups q e d (and-true (is_bare r) (is_bare q) b).1 j
    ∙ Leads-groups r c e (and-true (is_bare r) (is_bare q) b).0 i
Leads-groups (alt r q) c d b (inl h) = Leads-groups r c d (and-true (is_bare r) (is_bare q) b).0 h
Leads-groups (alt r q) c d b (inr h) = Leads-groups q c d (and-true (is_bare r) (is_bare q) b).1 h
Leads-groups (star r) c d b h = Rounds-groups (Leads r) (λ c d. Leads-groups r c d b) c d h
Leads-groups (lazy_star r) c d b h = Rounds-groups (Leads r) (λ c d. Leads-groups r c d b) c d h
Leads-groups (group n r) c d b h = cc
Leads-groups line_start c d b (e, _) = rw e refl
Leads-groups line_end c d b (e, _) = rw e refl
Leads-groups word_boundary c d b (e, _) = rw e refl
Leads-groups (ahead r) c d b (e, _) = rw e refl
Leads-groups (not_ahead r) c d b (e, _) = rw e refl

pub group_text-lookup :
    (n : ℕ) (m : Found) (t : Text) → lookup_group n m.groups ≡ some t → group_text n m ≡ t
group_text-lookup n m t e = rw (e, group_text) refl

length-take_le : (n : ℕ) (s : Text) → length (take n s) ≤ n
length-take_le zero s = omega arith
length-take_le (suc n) [] = omega arith
length-take_le (suc n) (c ∷ s) = omega (arith, length-take_le n s)

-- What was consumed is no longer than what is left less.
pub length-consumed : (c d : Cursor) → length (consumed c d) ≤ length c.rest - length d.rest
length-consumed c d = length-take_le (length c.rest - length d.rest) c.rest

-- Where Match returns nothing, the pattern leads nowhere.
pub match_pattern-Nothing : (r : Regex) (s : Text) → match_pattern r s ≡ none → Nothing r (start s)
unfolding match_pattern
match_pattern-Nothing r s h = subst (λ o. Tried r 0 (start s) o) h (first_found-Tried r 0 (start s))
