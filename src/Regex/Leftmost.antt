-- ===== src/Regex/Leftmost.antt =====
-- Match and Search of cpplint.py against the meaning of patterns.
use myframe.Common.{
  ℕ, zero, suc, ◌+◌, ◌≤◌, ◌<◌, ◌≡◌, ◌↔◌, refl, true, Option, none, some, List, [], ◌∷◌, arith, inl,
  length,
}
use myframe.Text.{Text}
use myframe.Regex.{
  Regex, Cursor, run, start, consumed, Found, first_found, match_pattern, search_from,
  search_pattern, matches, is_some,
}
use myframe.Regex.Meaning.{In, Leads, run_iff}

-- The place `n` characters further on.
abbrev pub place : Text → ℕ → Text → Cursor
place before zero s = record { before = before; rest = s; groups = [] }
place before (suc n) [] = record { before = before; rest = []; groups = [] }
place before (suc n) (x ∷ s) = place (x ∷ before) n s

-- The match goes from `c` to a place that the pattern leads to.
abbrev pub IsFound : Regex → Cursor → Found → Type 0
IsFound r c m =
    (d : Cursor) × Leads r c d × (m.text ≡ consumed c d) × (m.rest ≡ d.rest) × (m.groups ≡ d.groups)

abbrev pub Nothing : Regex → Cursor → Type 0
Nothing r c = (d : Cursor) → ¬ Leads r c d

-- What a search that begins at `n` has found in the rest of the text.
abbrev Sought : Regex → ℕ → Text → Text → Option Found → Type 0
Sought r n before s none = (k : ℕ) → k ≤ length s → Nothing r (place before k s)
Sought r n before s (some m) =
    (k : ℕ) × (k ≤ length s)
    × (m.at ≡ n + k)
    × IsFound r (place before k s) m
    × ((j : ℕ) → j < k → Nothing r (place before j s))

-- The first of the ways to match, if there is one.
abbrev pub Tried : Regex → ℕ → Cursor → Option Found → Type 0
Tried r n c none = Nothing r c
Tried r n c (some m) = (m.at ≡ n) × IsFound r c m

first_found-Tried_from :
    (r : Regex) (n : ℕ) (c : Cursor) (l : List Cursor)
    → ((d : Cursor) → In d l ↔ Leads r c d)
    → Tried r n c (first_found n c l)
unfolding first_found
first_found-Tried_from r n c [] agree = λ d p. (agree d).1 p
first_found-Tried_from r n c (x ∷ l) agree = (refl, (x, (agree x).0 (inl refl), refl, refl, refl))

pub first_found-Tried : (r : Regex) (n : ℕ) (c : Cursor) → Tried r n c (first_found n c (run r c))
first_found-Tried r n c = first_found-Tried_from r n c (run r c) (λ d. run_iff r c d)

-- One place further on, behind a place where there is nothing.
Sought-later :
    (r : Regex) (n x : ℕ) (before s : Text) (o : Option Found)
    → Nothing r (place before 0 (x ∷ s))
    → Sought r (suc n) (x ∷ before) s o
    → Sought r n before (x ∷ s) o
Sought-later r n x before s none fails h = nothing_later
  where
    nothing_later : (k : ℕ) → k ≤ length (x ∷ s) → Nothing r (place before k (x ∷ s))
    nothing_later zero le = fails
    nothing_later (suc k) le = h k (omega arith)
Sought-later r n x before s (some m) fails (k, le, at, found, first) =
    (suc k, omega arith, omega arith, found, earlier)
  where
    earlier : (j : ℕ) → j < suc k → Nothing r (place before j (x ∷ s))
    earlier zero lt = fails
    earlier (suc j) lt = first j (omega arith)

Sought-here :
    (r : Regex) (n : ℕ) (before s : Text) (m : Found)
    → Tried r n (record { before = before; rest = s; groups = [] }) (some m)
    → Sought r n before s (some m)
Sought-here r n before s m (at, found) =
    (0, omega arith, omega arith, found, λ j lt. absurd (omega arith))

search_from-Sought :
    (r : Regex) (n : ℕ) (before s : Text) → Sought r n before s (search_from r n before s)
unfolding search_from
search_from-Sought r n before [] = last (first_found n c (run r c)) (first_found-Tried r n c)
  where
    c : Cursor
    c = record { before = before; rest = []; groups = [] }

    nothing_left : (k : ℕ) → k ≤ length {A = ℕ} [] → Nothing r c → Nothing r (place before k [])
    nothing_left zero le t = t
    nothing_left (suc k) le t = absurd (omega arith)

    last : (o : Option Found) → Tried r n c o → Sought r n before [] o
    last none t = λ k le. nothing_left k le t
    last (some m) t = Sought-here r n before [] m t
search_from-Sought r n before (x ∷ s) =
    next (search_from r (suc n) (x ∷ before) s) (search_from-Sought r (suc n) (x ∷ before) s)
      (first_found n c (run r c)) (first_found-Tried r n c)
  where
    c : Cursor
    c = record { before = before; rest = x ∷ s; groups = [] }

    next :
        (later : Option Found)
        → Sought r (suc n) (x ∷ before) s later
        → (o : Option Found) → Tried r n c o
        → Sought r n before (x ∷ s) (elim o [ none ↦ later | some m ↦ some m ])
    next later h none t = Sought-later r n x before s later t h
    next later h (some m) t = Sought-here r n before (x ∷ s) m t

-- What Search returns: nothing, where the pattern leads nowhere from any place of the text, or the
-- match at the leftmost place from which it leads somewhere.
abbrev Leftmost : Regex → Text → Option Found → Type 0
Leftmost r s none = (k : ℕ) → k ≤ length s → Nothing r (place [] k s)
Leftmost r s (some m) =
    (k : ℕ) × (k ≤ length s)
    × (m.at ≡ k)
    × IsFound r (place [] k s) m
    × ((j : ℕ) → j < k → Nothing r (place [] j s))

-- Search finds a match exactly where there is one, the leftmost, and returns it with its place, its
-- text, what follows it and its groups.
search_pattern-Leftmost : (r : Regex) (s : Text) → Leftmost r s (search_pattern r s)
unfolding search_pattern
search_pattern-Leftmost r s = go (search_from r 0 [] s) (search_from-Sought r 0 [] s)
  where
    go : (o : Option Found) → Sought r 0 [] s o → Leftmost r s o
    go none h = h
    go (some m) (k, le, at, found, first) = (k, le, omega arith, found, first)

-- Match succeeds exactly where the pattern leads somewhere from the beginning of the text.
pub matches_iff :
    (r : Regex) (s : Text) → (matches r s ≡ true) ↔ ((d : Cursor) × Leads r (start s) d)
unfolding match_pattern
matches_iff r s = go (first_found 0 (start s) (run r (start s))) (first_found-Tried r 0 (start s))
  where
    go :
        (o : Option Found)
        → Tried r 0 (start s) o
        → (is_some o ≡ true) ↔ ((d : Cursor) × Leads r (start s) d)
    go none t = (λ h. cc, λ (d, p). absurd (t d p))
    go (some m) (at, found) = (λ _. (found.0, found.1), λ _. refl)
