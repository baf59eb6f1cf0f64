-- ===== src/Cleanse/Raw/Shorter.antt =====
-- One round of CleanseRawStrings: a replaced raw string leaves a shorter line.
use myframe.Common.{
  ℕ, zero, suc, ◌+◌, ◌-◌, ◌≤◌, ◌<◌, ◌≡◌, inl, inr, refl, ap, ◌∙◌, Bool, true, Option, none, some,
  [], ◌∷◌, ◌++◌, ◌==◌, length, length-append, drop, arith, Bool-cases, Option-cases,
}
use myframe.Text.{Text, starts_with, find}
use myframe.Regex.Classes.{dot}
use myframe.Regex.{
  star, lazy_star, word_boundary, Regex, chr, group, line_start, line_end, ◌&◌, Found, Cursor,
  start, consumed, group_text, lookup_group, match_pattern, matches, capture,
}
use myframe.Regex.Meaning.{Leads}
use myframe.Regex.Groups.{
  group_text-lookup, is_bare, match_pattern-IsFound, Leads-le, Leads-groups, length-consumed,
}
use myframe.Cleanse.Raw.{
  raw_prefix, delimiter_char, raw_start_pattern, comment_prefix_pattern, replaced, delimiter_of,
  empty_string, replace_found, replaced_at, raw_of, raw_move,
}

starts_with-le : (s p : Text) → starts_with s p ≡ true → length p ≤ length s
unfolding starts_with
starts_with-le s [] h = omega arith
starts_with-le [] (d ∷ p) h = cc
starts_with-le (c ∷ s) (d ∷ p) h = ground (arith, starts_with-le s p)

-- What is found stands in the text.
find-le : (s p : Text) (i : ℕ) → find s p ≡ some i → i + length p ≤ length s
unfolding find
find-le [] p i h = ground (arith, starts_with-le [] p)
find-le (c ∷ s) p i h = elim (Option-cases (find s p)) [
  | inl e ↦ ground (arith, starts_with-le (c ∷ s) p)
  | inr (k, e) ↦ ground (arith, starts_with-le (c ∷ s) p, find-le s p k e)
]

-- A pattern with three groups and two characters between them
abbrev shape : Regex → Regex → Regex → (ℕ → Bool) → Regex → (ℕ → Bool) → Regex → Regex
shape r1 rb ra p r2 q r3 =
    line_start & group 1 r1 & rb & ra & chr p & group 2 r2 & chr q & group 3 r3 & line_end

chr-length : (p : ℕ → Bool) (c d : Cursor) → Leads (chr p) c d → length c.rest ≡ suc (length d.rest)
chr-length p c d (x, s, e, px, ed) = rw (e, ed) refl

shape-length :
    (r1 rb ra : Regex) (p : ℕ → Bool) (r2 : Regex) (q : ℕ → Bool) (r3 : Regex) (c d : Cursor)
    → is_bare rb ≡ true
    → is_bare ra ≡ true
    → is_bare r2 ≡ true
    → is_bare r3 ≡ true
    → Leads (shape r1 rb ra p r2 q r3) c d
    → (t1 : Text) × (t3 : Text) × (lookup_group 1 d.groups ≡ some t1)
      × (lookup_group 3 d.groups ≡ some t3)
      × (length t1 + length t3 + 2 ≤ length c.rest)
unfolding capture
shape-length r1 rb ra p r2 q r3 c d bw ba b2 b3
      (
        a,
        (ea, _),
        (
          b,
          (b', lb, eb),
          (w, lw, (x, lx, (y, ly, (z, (z', lz, ez), (u, lu, (v, (v', lv, ev), (ed, _))))))),
        ),
      ) =
    let first : d.groups ≡ (3, consumed u v') ∷ v'.groups = rw (ed, ev) refl in
    let second : v'.groups ≡ (2, consumed y z') ∷ z'.groups =
      Leads-groups r3 u v' b3 lv ∙ Leads-groups (chr q) z u refl lu ∙ rw ez refl in
    let third : z'.groups ≡ (1, consumed a b') ∷ b'.groups =
      Leads-groups r2 y z' b2 lz
      ∙ Leads-groups (chr p) x y refl ly
      ∙ Leads-groups ra w x ba lx
      ∙ Leads-groups rb b w bw lw
      ∙ rw eb refl in
    (
      consumed a b',
      consumed u v',
      ap (lookup_group 1) first ∙ ap (lookup_group 1) second ∙ ap (lookup_group 1) third,
      ap (lookup_group 3) first,
      omega (
        arith,
        ap (λ (o : Cursor). length o.rest) ea,
        ap (λ (o : Cursor). length o.rest) eb,
        ap (λ (o : Cursor). length o.rest) ez,
        Leads-le rb b w lw,
        Leads-le ra w x lx,
        chr-length p x y ly,
        Leads-le r2 y z' lz,
        chr-length q z u lu,
        Leads-le r1 a b' lb,
        length-consumed a b',
        length-consumed u v',
      ),
    )

-- A match of the start of a raw string: what is before and behind the opening is shorter than the
-- line.
raw_start-length :
    (line : Text) (m : Found)
    → match_pattern raw_start_pattern line ≡ some m
    → length (group_text 1 m) + length (group_text 3 m) + 2 ≤ length line
unfolding raw_start_pattern
raw_start-length line m h =
    let (d, leads, _, _, groups) = match_pattern-IsFound raw_start_pattern line m h in
    let (t1, t3, one, three, le) =
      shape-length (lazy_star dot) word_boundary raw_prefix (λ x. x == 34) (star delimiter_char)
        (λ x. x == b'(') (star dot) (start line) d refl refl refl refl leads in
    rw (group_text-lookup 1 m t1 (ap (lookup_group 1) groups ∙ one))
      (rw (group_text-lookup 3 m t3 (ap (lookup_group 3) groups ∙ three)) le)

length-drop : (n : ℕ) (s : Text) → length (drop n s) ≡ length s - n
length-drop zero s = omega arith
length-drop (suc n) [] = omega arith
length-drop (suc n) (c ∷ s) = omega (arith, length-drop n s)

to_text : {s t : Text} → replaced s ≡ replaced t → s ≡ t
to_text e = cc

replaced_at-length :
    (head name tail line' : Text) (o : Option ℕ)
    → find tail (delimiter_of name) ≡ o
    → replaced_at head (delimiter_of name) tail o ≡ replaced line'
    → length line' ≤ length head + length tail
unfolding replaced_at
replaced_at-length head name tail line' none e h = absurd (ground arith)
replaced_at-length head name tail line' (some i) e h = rw (← (to_text h)) (
    omega (
      arith,
      length-append head (empty_string ++ drop (i + length (delimiter_of name)) tail),
      length-append empty_string (drop (i + length (delimiter_of name)) tail),
      length-drop (i + length (delimiter_of name)) tail,
      find-le tail (delimiter_of name) i e,
      length-append name (34 ∷ []),
    ))

replace_found-length :
    (head name tail line' : Text)
    → replace_found head (delimiter_of name) tail ≡ replaced line'
    → length line' ≤ length head + length tail
replace_found-length head name tail line' h =
    replaced_at-length head name tail line' (find tail (delimiter_of name)) refl
      (unfold replace_found in h)

raw_of-length :
    (line line' : Text) (o : Option Found)
    → match_pattern raw_start_pattern line ≡ o
    → raw_of o ≡ replaced line'
    → length line' < length line
unfolding raw_of
raw_of-length line line' none e h = absurd (ground arith)
raw_of-length line line' (some m) e h =
    elim (Bool-cases (matches comment_prefix_pattern (group_text 1 m))) [
      | inl b ↦ absurd (ground (arith, simp b at h))
      | inr b ↦ omega (
        arith,
        replace_found-length (group_text 1 m) (group_text 2 m) (group_text 3 m) line' (simp b at h),
        raw_start-length line m e,
      )
    ]

pub raw_move-length :
    (line line' : Text) → raw_move line ≡ replaced line' → length line' < length line
raw_move-length line line' h =
    raw_of-length line line' (match_pattern raw_start_pattern line) refl (unfold raw_move in h)
