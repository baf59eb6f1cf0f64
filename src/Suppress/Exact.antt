-- ===== src/Suppress/Exact.antt =====
-- Which errors the NOLINT comments and the directives of a file suppress.
use myframe.Common.{
  ℕ, ◌≡◌, ◌⊎◌, inl, inr, refl, ap, Bool, true, false, ◌&&◌, ◌||◌, Option, none, some, List, [], ◌∷◌,
  ◌==◌, if◌then◌else◌, any, arith, Bool-cases, ==_iff,
}
use myframe.Text.{Text, codes, text_eq, is_one_of}
use myframe.Text.Laws.{text_eq_sound, text_eq_refl}
use myframe.Regex.{Found, group_of, search_pattern, contains}
use myframe.Categories.{
  Diagnostic, error_categories, default_c_suppressed_categories,
  default_kernel_suppressed_categories,
}
use myframe.Suppress.{
  Suppressions, key_eq, has_line, suppressed_at, add_line, suppress, suppress_category, inner,
  nolint_pattern, apply_nolint, apply_category, target, parse_nolint_suppressions, c_file_pattern,
  kernel_file_pattern, add_everywhere, global_suppressions_of_line, process_global_suppressions,
  reset_nolint_suppressions, is_error_suppressed_by_nolint,
}

key_eq_sound : (k j : Option Text) → key_eq k j ≡ true → k ≡ j
key_eq_sound none none h = refl
key_eq_sound none (some t) h = cc
key_eq_sound (some s) none h = cc
key_eq_sound (some s) (some t) h = ap some (text_eq_sound s t h)

key_eq_refl : (k : Option Text) → key_eq k k ≡ true
key_eq_refl none = refl
key_eq_refl (some t) = text_eq_refl t

key_eq_trans : (i k j : Option Text) → key_eq i k ≡ true → key_eq i j ≡ key_eq k j
key_eq_trans i k j h = ap (λ x. key_eq x j) (key_eq_sound i k h)

has_line-known :
    (n m : ℕ) (ns : List ℕ) → has_line n ns ≡ true → has_line m ns ≡ (has_line m ns || n == m)
has_line-known n m ns h = elim (Bool-cases (n == m)) [
  | inl e ↦ rw (← (==_iff n m).0 e) (rw h)
  | inr e ↦ ground arith
]

has_line-add :
    (n m : ℕ) (ns : List ℕ)
    → has_line m (if has_line n ns then ns else n ∷ ns) ≡ (has_line m ns || n == m)
has_line-add n m ns = elim (Bool-cases (has_line n ns)) [
  | inl h ↦ rw h (has_line-known n m ns h)
  | inr h ↦ rw h (or_comm (n == m) (has_line m ns))
]
  where
    or_comm : (a b : Bool) → (a || b) ≡ (b || a)
    or_comm a b = ground arith

-- One more line under one key: the others are suppressed as before.
suppressed_at-add_line :
    (k j : Option Text) (n m : ℕ) (d : List (Option Text × List ℕ))
    → suppressed_at j m (add_line k n d) ≡ (suppressed_at j m d || (key_eq k j && n == m))
unfolding suppressed_at add_line
suppressed_at-add_line k j n m [] = ground arith
suppressed_at-add_line k j n m ((i, ns) ∷ d) = ground (
  arith,
  suppressed_at-add_line k j n m d,
  key_eq_trans i k j,
  has_line-add n m ns,
  key_eq_sound i k,
  key_eq_sound i j,
  key_eq_refl i,
  key_eq_sound k j,
)

-- Whether a NOLINT comment that was found on the line covers the category.
abbrev pub covers : Option Text → Text → Bool
covers none c = true
covers (some t) c =
    if text_eq t (codes "(*)")
    then true
    else is_one_of (inner t) error_categories && text_eq (inner t) c

suppressed_after_suppress :
    (k : Option Text) (c : Text) (n m : ℕ) (s : Suppressions)
    → is_error_suppressed_by_nolint c m (suppress k n s)
      ≡ (is_error_suppressed_by_nolint c m s || ((key_eq k (some c) || key_eq k none) && n == m))
unfolding is_error_suppressed_by_nolint
suppressed_after_suppress k c n m s =
    rw
      (suppressed_at-add_line k (some c) n m s.by_line, suppressed_at-add_line k none n m s.by_line)
      (ground arith)

suppressed_after_category :
    (t c : Text) (line n m : ℕ) (s : Suppressions)
    → is_error_suppressed_by_nolint c m (suppress_category t line n s).0 ≡ (
        is_error_suppressed_by_nolint c m s
        || ((is_one_of t error_categories && text_eq t c) && n == m))
unfolding suppress_category
suppressed_after_category t c line n m s =
    ground (arith, suppressed_after_suppress (some t) c n m s)

suppressed_after_apply :
    (g : Option Text) (line n : ℕ) (s : Suppressions) (c : Text) (m : ℕ)
    → is_error_suppressed_by_nolint c m (apply_category g line n s).0
      ≡ (is_error_suppressed_by_nolint c m s || (covers g c && n == m))
unfolding apply_category
suppressed_after_apply none line n s c m =
    rw (suppressed_after_suppress none c n m s) (ground arith)
suppressed_after_apply (some t) line n s c m = elim (Bool-cases (text_eq t (codes "(*)"))) [
  | inl e ↦ rw e (rw (suppressed_after_suppress none c n m s) (ground arith))
  | inr e ↦ rw e (suppressed_after_category (inner t) c line n m s)
]

-- What the NOLINT comment of a line suppresses, if there is one.
abbrev pub suppressed_by : Option Found → ℕ → Text → ℕ → Bool
suppressed_by none line c m = false
suppressed_by (some f) line c m = covers (group_of 2 f) c && target (group_of 1 f) line == m

-- After a line is parsed, an error is suppressed exactly when it was before, or when the NOLINT
-- comment of the line covers its category and is about its line.
pub parse_nolint_lem :
    (raw_line : Text) (line : ℕ) (s : Suppressions) (c : Text) (m : ℕ)
    → is_error_suppressed_by_nolint c m (parse_nolint_suppressions raw_line line s).0 ≡ (
        is_error_suppressed_by_nolint c m s
        || suppressed_by (search_pattern nolint_pattern raw_line) line c m)
unfolding parse_nolint_suppressions apply_nolint
parse_nolint_lem raw_line line s c m = by_match (search_pattern nolint_pattern raw_line)
  where
    by_match :
        (o : Option Found)
        → is_error_suppressed_by_nolint c m
            (elim o as (λ _. Suppressions × List Diagnostic) [
              | none ↦ (s, [])
              | some f ↦ apply_nolint line f s
            ]).0
          ≡ (is_error_suppressed_by_nolint c m s || suppressed_by o line c m)
    by_match none = ground arith
    by_match (some f) =
        suppressed_after_apply (group_of 2 f) line (target (group_of 1 f) line) s c m

-- A NOLINT comment is reported only when it suppresses nothing.
abbrev IsQuietOrIdle : Suppressions → Suppressions × List Diagnostic → Type 0
IsQuietOrIdle s r = (r.1 ≡ []) ⊎ (r.0 ≡ s)

category-IsQuietOrIdle :
    (t : Text) (line n : ℕ) (s : Suppressions) → IsQuietOrIdle s (suppress_category t line n s)
unfolding suppress_category
category-IsQuietOrIdle t line n s = elim (Bool-cases (is_one_of t error_categories)) [
  | inl known ↦ inl (rw known)
  | inr unknown ↦ inr (rw unknown (ground arith))
]

apply-IsQuietOrIdle :
    (g : Option Text) (line n : ℕ) (s : Suppressions) → IsQuietOrIdle s (apply_category g line n s)
unfolding apply_category
apply-IsQuietOrIdle none line n s = inl refl
apply-IsQuietOrIdle (some t) line n s = elim (Bool-cases (text_eq t (codes "(*)"))) [
  | inl e ↦ inl (rw e)
  | inr e ↦ rw e (category-IsQuietOrIdle (inner t) line n s)
]

-- Parsing a line reports nothing, or it changes nothing: a NOLINT comment that is reported as
-- unknown suppresses no error.
pub parse_nolint_report :
    (raw_line : Text) (line : ℕ) (s : Suppressions)
    → ((parse_nolint_suppressions raw_line line s).1 ≡ [])
      ⊎ ((parse_nolint_suppressions raw_line line s).0 ≡ s)
unfolding parse_nolint_suppressions apply_nolint
parse_nolint_report raw_line line s = by_match (search_pattern nolint_pattern raw_line)
  where
    by_match :
        (o : Option Found)
        → IsQuietOrIdle s (elim o as (λ _. Suppressions × List Diagnostic) [
          | none ↦ (s, [])
          | some f ↦ apply_nolint line f s
        ])
    by_match none = inl refl
    by_match (some f) = apply-IsQuietOrIdle (group_of 2 f) line (target (group_of 1 f) line) s

-- The directives of the whole file: a category is suppressed everywhere when a line names its kind.
abbrev pub named_by : List Text → Text → Bool
named_by lines c =
    (any (λ l. contains c_file_pattern l) lines && is_one_of c default_c_suppressed_categories)
    || (any (λ l. contains kernel_file_pattern l) lines
        && is_one_of c default_kernel_suppressed_categories)

is_one_of_sound :
    (t : Text) (ts : List Text) (c : Text) → text_eq c t ≡ true → is_one_of c ts ≡ is_one_of t ts
is_one_of_sound t ts c h = ap (λ x. is_one_of x ts) (text_eq_sound c t h)

suppressed_after_everywhere :
    (cs : List Text) (c : Text) (m : ℕ) (s : Suppressions)
    → is_error_suppressed_by_nolint c m (add_everywhere cs s)
      ≡ (is_error_suppressed_by_nolint c m s || is_one_of c cs)
unfolding is_error_suppressed_by_nolint add_everywhere is_one_of
suppressed_after_everywhere [] c m s = ground arith
suppressed_after_everywhere (d ∷ cs) c m s = ground (
  arith,
  suppressed_after_everywhere cs c m (record s {
    everywhere = if is_one_of d s.everywhere then s.everywhere else d ∷ s.everywhere;
  }),
  is_one_of_sound d s.everywhere c,
)

suppressed_after_line :
    (line c : Text) (m : ℕ) (s : Suppressions)
    → is_error_suppressed_by_nolint c m (global_suppressions_of_line line s)
      ≡ (is_error_suppressed_by_nolint c m s || named_by (line ∷ []) c)
unfolding global_suppressions_of_line
suppressed_after_line line c m s = ground (
  arith,
  suppressed_after_everywhere default_c_suppressed_categories c m s,
  suppressed_after_everywhere default_kernel_suppressed_categories c m s,
  suppressed_after_everywhere default_kernel_suppressed_categories c m
      (add_everywhere default_c_suppressed_categories s),
)

-- After the directives of a file are processed, an error is suppressed exactly when it was before, or
-- when some line of the file names the kind of file for which its category is suppressed.
pub process_global_suppressions_lem :
    (lines : List Text) (c : Text) (m : ℕ) (s : Suppressions)
    → is_error_suppressed_by_nolint c m (process_global_suppressions lines s)
      ≡ (is_error_suppressed_by_nolint c m s || named_by lines c)
unfolding process_global_suppressions
process_global_suppressions_lem [] c m s = ground arith
process_global_suppressions_lem (line ∷ lines) c m s = ground (
  arith,
  process_global_suppressions_lem lines c m (global_suppressions_of_line line s),
  suppressed_after_line line c m s,
)

-- The suppressions of one file do not reach the next.
pub reset_suppresses_nothing :
    (c : Text) (m : ℕ) (s : Suppressions)
    → is_error_suppressed_by_nolint c m (reset_nolint_suppressions s) ≡ false
unfolding is_error_suppressed_by_nolint reset_nolint_suppressions suppressed_at is_one_of
reset_suppresses_nothing c m s = refl
