-- ===== src/Regex/Meaning.antt =====
-- What a pattern means, without an order and without backtracking, and how `run` compares with it.
use myframe.Common.{
  ℕ, zero, suc, ◌≤◌, ◌<◌, ◌≡◌, ◌⊎◌, ◌↔◌, inl, inr, refl, sym, ap, Bool, true, false, List, [], ◌∷◌,
  ◌++◌, arith, ltb→lt, lt→ltb, if◌then◌else◌, Bool-cases, length,
}
use mathlib.Core.Path.{subst}
use myframe.Text.{Text}
use myframe.Regex.{
  Regex, chr, eps, seq, alt, star, lazy_star, group, line_start, line_end, word_boundary, ahead,
  not_ahead, Cursor, at_boundary, at_end, is_nil, step_char, flat_map, repeat, repeat_lazy, capture,
  run, progress, onward,
}

-- Membership in a list of places.
abbrev pub In : Cursor → List Cursor → Type 0
In d [] = ⊥
In d (e ∷ es) = (d ≡ e) ⊎ In d es

-- Any number of rounds, each of which consumes something.
pub data Rounds (R : Cursor → Cursor → Type 0) : Cursor → Cursor → Type 0 where
  stop : (c : Cursor) → Rounds R c c
  round : (c d e : Cursor) → R c d → length d.rest < length c.rest → Rounds R d e → Rounds R c e

-- The pattern leads from one place to the other.
abbrev pub Leads : Regex → Cursor → Cursor → Type 0
Leads (chr p) c d =
    (x : ℕ) × (s : Text) × (c.rest ≡ x ∷ s)
    × (p x ≡ true)
    × (d ≡ record c { before = x ∷ c.before; rest = s })
Leads eps c d = d ≡ c
Leads (seq r q) c d = (e : Cursor) × Leads r c e × Leads q e d
Leads (alt r q) c d = Leads r c d ⊎ Leads q c d
Leads (star r) c d = Rounds (Leads r) c d
Leads (lazy_star r) c d = Rounds (Leads r) c d
Leads (group n r) c d = (e : Cursor) × Leads r c e × (d ≡ capture n c e)
Leads line_start c d = (d ≡ c) × (c.before ≡ [])
Leads line_end c d = (d ≡ c) × (at_end c.rest ≡ true)
Leads word_boundary c d = (d ≡ c) × (at_boundary c ≡ true)
Leads (ahead r) c d = (d ≡ c) × ((e : Cursor) × Leads r c e)
Leads (not_ahead r) c d = (d ≡ c) × ¬ ((e : Cursor) × Leads r c e)

In-append_split : (d : Cursor) (xs ys : List Cursor) → In d (xs ++ ys) → In d xs ⊎ In d ys
In-append_split d [] ys h = inr h
In-append_split d (x ∷ xs) ys (inl e) = inl (inl e)
In-append_split d (x ∷ xs) ys (inr h) = elim (In-append_split d xs ys h) [
  | inl a ↦ inl (inr a)
  | inr b ↦ inr b
]

In-append_left : (d : Cursor) (xs ys : List Cursor) → In d xs → In d (xs ++ ys)
In-append_left d [] ys h = absurd h
In-append_left d (x ∷ xs) ys (inl e) = inl e
In-append_left d (x ∷ xs) ys (inr h) = inr (In-append_left d xs ys h)

In-append_right : (d : Cursor) (xs ys : List Cursor) → In d ys → In d (xs ++ ys)
In-append_right d [] ys h = h
In-append_right d (x ∷ xs) ys h = inr (In-append_right d xs ys h)

module _ (f : Cursor → List Cursor) where
  In-flat_map_split :
      (d : Cursor) (xs : List Cursor) → In d (flat_map f xs) → (e : Cursor) × In e xs × In d (f e)
  unfolding flat_map
  In-flat_map_split d [] h = absurd h
  In-flat_map_split d (x ∷ xs) h = elim (In-append_split d (f x) (flat_map f xs) h) [
    | inl a ↦ (x, inl refl, a)
    | inr b ↦ let (e, i, j) = In-flat_map_split d xs b in (e, inr i, j)
  ]

  In-flat_map_join : (d e : Cursor) (xs : List Cursor) → In e xs → In d (f e) → In d (flat_map f xs)
  unfolding flat_map
  In-flat_map_join d e [] h k = absurd h
  In-flat_map_join d e (x ∷ xs) (inl p) k =
      In-append_left d (f x) (flat_map f xs) (subst (λ y. In d (f y)) p k)
  In-flat_map_join d e (x ∷ xs) (inr h) k =
      In-append_right d (f x) (flat_map f xs) (In-flat_map_join d e xs h k)

onward-if :
    (k : Cursor → List Cursor) (c e : Cursor) {b : Bool}
    → progress c e ≡ b
    → onward k c e ≡ (elim b [ true ↦ k e | false ↦ [] ])
onward-if k c e h = ap (λ b. elim b as (λ _. List Cursor) [ true ↦ k e | false ↦ [] ]) h

-- The rounds that `repeat` tries are the rounds there are, where the fuel is no less than the
-- characters left.
module _ (f : Cursor → List Cursor) (R : Cursor → Cursor → Type 0)
    (agree : (c d : Cursor) → In d (f c) ↔ R c d) where
  onward_sound :
      (k : Cursor → List Cursor) (c d e : Cursor)
      → (In d (k e) → Rounds R e d)
      → R c e
      → In d (onward k c e)
      → Rounds R c d
  onward_sound k c d e ih r j = elim (Bool-cases (progress c e)) [
    | inl b ↦ round c e d r (ltb→lt _ _ b) (ih (subst (In d) (onward-if k c e b) j))
    | inr b ↦ absurd (subst (In d) (onward-if k c e b) j)
  ]

  Rounds-sound :
      (k : Cursor → List Cursor) (c d : Cursor)
      → ((e : Cursor) → In d (k e) → Rounds R e d)
      → In d (flat_map (onward k c) (f c))
      → Rounds R c d
  Rounds-sound k c d ih h =
      let (e, i, j) = In-flat_map_split (onward k c) d (f c) h in
      onward_sound k c d e (ih e) ((agree c e).0 i) j

  rounds_complete :
      (k : Cursor → List Cursor) (c d e : Cursor)
      → R c e
      → length e.rest < length c.rest
      → In d (k e)
      → In d (flat_map (onward k c) (f c))
  rounds_complete k c d e r lt h =
      In-flat_map_join (onward k c) d e (f c) ((agree c e).1 r)
        (subst (In d) (sym (onward-if k c e (lt→ltb _ _ lt))) h)

  stop_at : (c d : Cursor) → d ≡ c → Rounds R c d
  stop_at c d e = subst (λ y. Rounds R c y) (sym e) (stop c)

  repeat_sound : (n : ℕ) (c d : Cursor) → In d (repeat f n c) → Rounds R c d
  unfolding repeat
  repeat_sound zero c d (inl e) = stop_at c d e
  repeat_sound zero c d (inr h) = absurd h
  repeat_sound (suc n) c d h =
      elim (In-append_split d (flat_map (onward (repeat f n) c) (f c)) (c ∷ []) h) [
        | inl a ↦ Rounds-sound (repeat f n) c d (λ e. repeat_sound n e d) a
        | inr (inl e) ↦ stop_at c d e
        | inr (inr b) ↦ absurd b
      ]

  repeat_complete : (n : ℕ) (c d : Cursor) → length c.rest ≤ n → Rounds R c d → In d (repeat f n c)
  unfolding repeat
  repeat_complete zero c d le (stop _) = inl refl
  repeat_complete (suc n) c d le (stop _) = In-append_right c _ (c ∷ []) (inl refl)
  repeat_complete zero c d le (round _ e _ r lt rs) = absurd (omega arith)
  repeat_complete (suc n) c d le (round _ e _ r lt rs) =
      In-append_left d _ (c ∷ [])
        (rounds_complete (repeat f n) c d e r lt (repeat_complete n e d (omega arith) rs))

  repeat_lazy_sound : (n : ℕ) (c d : Cursor) → In d (repeat_lazy f n c) → Rounds R c d
  unfolding repeat_lazy
  repeat_lazy_sound zero c d (inl e) = stop_at c d e
  repeat_lazy_sound zero c d (inr h) = absurd h
  repeat_lazy_sound (suc n) c d (inl e) = stop_at c d e
  repeat_lazy_sound (suc n) c d (inr h) =
      Rounds-sound (repeat_lazy f n) c d (λ e. repeat_lazy_sound n e d) h

  repeat_lazy_complete :
      (n : ℕ) (c d : Cursor) → length c.rest ≤ n → Rounds R c d → In d (repeat_lazy f n c)
  unfolding repeat_lazy
  repeat_lazy_complete zero c d le (stop _) = inl refl
  repeat_lazy_complete (suc n) c d le (stop _) = inl refl
  repeat_lazy_complete zero c d le (round _ e _ r lt rs) = absurd (omega arith)
  repeat_lazy_complete (suc n) c d le (round _ e _ r lt rs) =
      inr
        (rounds_complete (repeat_lazy f n) c d e r lt (repeat_lazy_complete n e d (omega arith) rs))

In-if : (b : Bool) (c d : Cursor) → In d (if b then c ∷ [] else []) ↔ ((d ≡ c) × (b ≡ true))
In-if true c d = (λ h. elim h [ inl e ↦ (e, refl) | inr a ↦ absurd a ], λ p. inl p.0)
In-if false c d = (λ h. absurd h, λ p. cc)

In-step_char :
    (p : ℕ → Bool) (c d : Cursor) (t : Text)
    → In d (step_char p c t) ↔ (
        (x : ℕ) × (s : Text) × (t ≡ x ∷ s)
        × (p x ≡ true)
        × (d ≡ record c { before = x ∷ c.before; rest = s }))
unfolding step_char
In-step_char p c d [] = (λ h. absurd h, λ (x, s, e, q, r). cc)
In-step_char p c d (x ∷ s) = (
  (λ h. let (e, q) = (In-if (p x) _ d).0 h in (x, s, refl, q, e)),
  (λ (y, t, e, q, r). (In-if (p x) _ d).1 (cc, cc)),
)

is_nil_iff {ℓ} : {A : Type ℓ} (xs : List A) → (is_nil xs ≡ true) ↔ (xs ≡ [])
unfolding is_nil
is_nil_iff [] = (λ _. refl, λ _. refl)
is_nil_iff (x ∷ xs) = (λ h. cc, λ h. cc)

In-if_iff :
    {P : Type 0} (b : Bool) (c d : Cursor)
    → (b ≡ true) ↔ P
    → In d (if b then c ∷ [] else []) ↔ ((d ≡ c) × P)
In-if_iff b c d i =
    ((λ h. let (e, p) = (In-if b c d).0 h in (e, i.0 p)), (λ (e, p). (In-if b c d).1 (e, i.1 p)))

module _ {P : Cursor → Type 0} where
  In-ahead :
      (l : List Cursor) (c d : Cursor)
      → ((e : Cursor) × In e l → (e : Cursor) × P e)
      → ((e : Cursor) × P e → (e : Cursor) × In e l)
      → In d (if is_nil l then [] else c ∷ []) ↔ ((d ≡ c) × ((e : Cursor) × P e))
  unfolding is_nil
  In-ahead [] c d to from = (λ h. absurd h, λ (e, p). absurd ((from p).1))
  In-ahead (x ∷ l) c d to from =
      ((λ h. elim h [ inl e ↦ (e, to (x, inl refl)) | inr a ↦ absurd a ]), λ p. inl p.0)

  In-not_ahead :
      (l : List Cursor) (c d : Cursor)
      → ((e : Cursor) × In e l → (e : Cursor) × P e)
      → ((e : Cursor) × P e → (e : Cursor) × In e l)
      → In d (if is_nil l then c ∷ [] else []) ↔ ((d ≡ c) × ¬ ((e : Cursor) × P e))
  unfolding is_nil
  In-not_ahead [] c d to from =
      ((λ h. elim h [ inl e ↦ (e, λ p. (from p).1) | inr a ↦ absurd a ]), λ p. inl p.0)
  In-not_ahead (x ∷ l) c d to from = (λ h. absurd h, λ (e, p). absurd (p (to (x, inl refl))))

-- The places that `run` lists are those that the pattern leads to.
pub run_iff : (r : Regex) (c d : Cursor) → In d (run r c) ↔ Leads r c d
unfolding run
run_iff (chr p) c d = In-step_char p c d c.rest
run_iff eps c d = (λ h. elim h [ inl e ↦ e | inr a ↦ absurd a ], λ e. inl e)
run_iff (seq r q) c d = (
  (λ h.
      let (e, i, j) = In-flat_map_split (λ d. run q d) d (run r c) h in
      (e, (run_iff r c e).0 i, (run_iff q e d).0 j)),
  (λ (e, i, j).
      In-flat_map_join (λ d. run q d) d e (run r c) ((run_iff r c e).1 i) ((run_iff q e d).1 j)),
)
run_iff (alt r q) c d = (
  (λ h. elim (In-append_split d (run r c) (run q c) h) [
    | inl a ↦ inl ((run_iff r c d).0 a)
    | inr b ↦ inr ((run_iff q c d).0 b)
  ]),
  (λ h. elim h [
    | inl a ↦ In-append_left d (run r c) (run q c) ((run_iff r c d).1 a)
    | inr b ↦ In-append_right d (run r c) (run q c) ((run_iff q c d).1 b)
  ]),
)
run_iff (star r) c d = (
  repeat_sound (λ d. run r d) (Leads r) (λ c d. run_iff r c d) (length c.rest) c d,
  repeat_complete (λ d. run r d) (Leads r) (λ c d. run_iff r c d) (length c.rest) c d (omega arith),
)
run_iff (lazy_star r) c d = (
  repeat_lazy_sound (λ d. run r d) (Leads r) (λ c d. run_iff r c d) (length c.rest) c d,
  repeat_lazy_complete (λ d. run r d) (Leads r) (λ c d. run_iff r c d) (length c.rest) c d
      (omega arith),
)
run_iff (group n r) c d = (
  (λ h.
      let (e, i, j) = In-flat_map_split (λ d. capture n c d ∷ []) d (run r c) h in
      (e, (run_iff r c e).0 i, elim j [ inl p ↦ p | inr a ↦ absurd a ])),
  (λ (e, i, p).
      In-flat_map_join (λ d. capture n c d ∷ []) d e (run r c) ((run_iff r c e).1 i) (inl p)),
)
run_iff line_start c d = In-if_iff (is_nil c.before) c d (is_nil_iff c.before)
run_iff line_end c d = In-if (at_end c.rest) c d
run_iff word_boundary c d = In-if (at_boundary c) c d
run_iff (ahead r) c d =
    In-ahead (run r c) c d (λ (e, i). (e, (run_iff r c e).0 i)) (λ (e, i). (e, (run_iff r c e).1 i))
run_iff (not_ahead r) c d =
    In-not_ahead (run r c) c d (λ (e, i). (e, (run_iff r c e).0 i))
      (λ (e, i). (e, (run_iff r c e).1 i))
