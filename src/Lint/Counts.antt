-- ===== src/Lint/Counts.antt =====
-- The error statistic of _CppLintState: the total and the counts by category.
use myframe.Common.{
  ℕ, ◌+◌, ◌≡◌, ◌≢◌, refl, sym, inl, inr, Bool-cases, length, false, Option, none, some, List, [],
  ◌∷◌, if◌then◌else◌, arith, All,
}
use mathlib.Core.Path.{subst}
use myframe.Text.{Text, text_eq, has_char, split}
use myframe.Text.Laws.{text_eq_sound, text_eq_refl, first_part, has_char-first_part-split}
use myframe.Lint.{
  LintState, Counting, total, toplevel, detailed, count_key, bump, bump_key, increment_error_count,
  reset_error_counts,
}

abbrev pub sum_counts : List (Text × ℕ) → ℕ
sum_counts [] = 0
sum_counts ((k, n) ∷ d) = n + sum_counts d

sum_counts-bump : (k : Text) (d : List (Text × ℕ)) → sum_counts (bump k d) ≡ sum_counts d + 1
unfolding bump
sum_counts-bump k [] = omega arith
sum_counts-bump k ((j, n) ∷ d) = ground (arith, sum_counts-bump k d)

-- What errors_by_category[key] is, 0 where there is no such key.
abbrev pub count_of : Text → List (Text × ℕ) → ℕ
count_of key [] = 0
count_of key ((k, n) ∷ d) = if text_eq k key then n else count_of key d

count_of-bump :
    (k j : Text) (d : List (Text × ℕ))
    → count_of j (bump k d) ≡ count_of j d + (if text_eq k j then 1 else 0)
unfolding bump
count_of-bump k j [] = ground arith
count_of-bump k j ((i, n) ∷ d) = ground (
  arith,
  count_of-bump k j d,
  text_eq_sound i k,
  text_eq_sound i j,
  text_eq_sound k j,
  text_eq_refl i,
)

-- Errors of the given categories are counted, one after another.
abbrev pub count_all : List Text → LintState → LintState
count_all [] s = s
count_all (c ∷ cs) s = count_all cs (increment_error_count c s)

-- Whether an error that is counted under the one key, if under any, counts for the other.
abbrev pub hit : Option Text → Text → ℕ
hit none key = 0
hit (some k) key = if text_eq k key then 1 else 0

-- How many of the categories are counted under the key.
abbrev pub occurrences : Counting → Text → List Text → ℕ
occurrences how key [] = 0
occurrences how key (c ∷ cs) = hit (count_key how c) key + occurrences how key cs

count_of-bump_key :
    (o : Option Text) (key : Text) (d : List (Text × ℕ))
    → count_of key (bump_key o d) ≡ count_of key d + hit o key
count_of-bump_key none key d = omega arith
count_of-bump_key (some k) key d = count_of-bump k key d

sum_counts-bump_key :
    (o : Option Text) (d : List (Text × ℕ))
    → o ≢ none
    → sum_counts (bump_key o d) ≡ sum_counts d + 1
sum_counts-bump_key none d ne = absurd (ne refl)
sum_counts-bump_key (some k) d ne = sum_counts-bump k d

-- The total grows by one for each error, and the count of a key by one for each error whose category
-- is counted under that key.
pub count_all_lem :
    (cs : List Text) (key : Text) (s : LintState)
    → ((count_all cs s).error_count ≡ s.error_count + length cs)
      × (count_of key (count_all cs s).errors_by_category
          ≡ count_of key s.errors_by_category + occurrences s.counting key cs)
unfolding increment_error_count
count_all_lem [] key s = (omega arith, omega arith)
count_all_lem (c ∷ cs) key s =
    let rest = count_all_lem cs key (increment_error_count c s) in
    let step = count_of-bump_key (count_key s.counting c) key s.errors_by_category in
    (omega (arith, rest.0), omega (arith, rest.1, step))

count_key-ne-none : (how : Counting) (c : Text) → how ≢ total → count_key how c ≢ none
unfolding count_key
count_key-ne-none total c ne = absurd (ne refl)
count_key-ne-none toplevel c ne = λ e. cc
count_key-ne-none detailed c ne = λ e. cc

sum_counts_from :
    (cs : List Text) (s : LintState)
    → s.counting ≢ total
    → sum_counts s.errors_by_category ≡ s.error_count
    → sum_counts (count_all cs s).errors_by_category ≡ (count_all cs s).error_count
unfolding increment_error_count
sum_counts_from [] s by h = h
sum_counts_from (c ∷ cs) s by h = sum_counts_from cs (increment_error_count c s) by (
    omega (
      arith,
      sum_counts-bump_key (count_key s.counting c) s.errors_by_category
          (count_key-ne-none s.counting c by),
    ))

-- Since the last reset, under a style that counts by category, the counts of all the keys add up to
-- the total of errors.
pub sum_counts-count_all :
    (cs : List Text) (s : LintState)
    → s.counting ≢ total
    → sum_counts (count_all cs (reset_error_counts s)).errors_by_category
      ≡ (count_all cs (reset_error_counts s)).error_count
unfolding reset_error_counts
sum_counts-count_all cs s by = sum_counts_from cs (reset_error_counts s) by refl

abbrev NoSlash : List (Text × ℕ) → Type 0
NoSlash = All (λ e. has_char e.0 b'/' ≡ false)

NoSlash-bump :
    (k : Text) (d : List (Text × ℕ)) → has_char k b'/' ≡ false → NoSlash d → NoSlash (bump k d)
unfolding bump
NoSlash-bump k [] h a = (h, tt)
NoSlash-bump k ((j, n) ∷ d) h a = elim (Bool-cases (text_eq j k)) [
  | inl e ↦ rw e a
  | inr e ↦ rw e (a.0, NoSlash-bump k d h a.1)
]

toplevel_keys_from :
    (cs : List Text) (s : LintState)
    → s.counting ≡ toplevel
    → NoSlash s.errors_by_category
    → NoSlash (count_all cs s).errors_by_category
unfolding increment_error_count count_key
toplevel_keys_from [] s by a = a
toplevel_keys_from (c ∷ cs) s by a = toplevel_keys_from cs (increment_error_count c s) by (
    subst (λ how. NoSlash (bump_key (count_key how c) s.errors_by_category)) (sym by)
      (NoSlash-bump (first_part (split b'/' c)) s.errors_by_category
        (has_char-first_part-split b'/' c) a))

-- Counted by top level since the last reset, no key has a slash.
pub toplevel_keys :
    (cs : List Text) (s : LintState)
    → s.counting ≡ toplevel
    → All (λ e. has_char e.0 b'/' ≡ false) (count_all cs (reset_error_counts s)).errors_by_category
unfolding reset_error_counts
toplevel_keys cs s by = toplevel_keys_from cs (reset_error_counts s) by tt
