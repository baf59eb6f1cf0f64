-- ===== src/Lint/Filters.antt =====
-- The filters of --filter and of the configuration files, and the answer of _ShouldPrintError.
use myframe.Common.{
  ℕ, ◌≡◌, ◌≢◌, refl, sym, ap, ◌∙◌, Bool, true, false, not, ◌&&◌, none, some, List, [], ◌∷◌, ◌++◌,
  ltb, if◌then◌else◌, drop, arith, Bool-cases, All, inl, inr,
}
use mathlib.Core.Path.{subst}
use myframe.Text.{Text, codes, starts_with}
use myframe.Categories.{default_filters}
use myframe.Suppress.{Suppressions, is_error_suppressed_by_nolint}
use myframe.Lint.{
  LintState, is_signed, first_unsigned, add_filters, set_filters, backup_filters, restore_filters,
  filtered_from, should_print_error,
}

-- The filter speaks of the category: what follows its sign is a prefix of it.
abbrev pub applies : Text → Text → Bool
applies category f = starts_with category (drop 1 f)

-- One filter: it decides, if it applies, and leaves the decision as it is, if not.
filtered_from-step :
    (category f : Text) (b : Bool) (fs : List Text)
    → is_signed f ≡ true
    → filtered_from category b (f ∷ fs)
      ≡ filtered_from category (if applies category f then starts_with f (codes "-") else b) fs
unfolding filtered_from
filtered_from-step category f b fs h = elim (Bool-cases (starts_with f (codes "-"))) [
  | inl minus ↦ rw minus (ap (λ x. filtered_from category x fs) (ground arith))
  | inr plus ↦ rw plus (rw (plus_of plus) (ap (λ x. filtered_from category x fs) (ground arith)))
]
  where
    plus_of : starts_with f (codes "-") ≡ false → starts_with f (codes "+") ≡ true
    plus_of p = ground arith

filtered_from-none :
    (category : Text) (b : Bool) (fs : List Text)
    → All (λ f. is_signed f ≡ true) fs
    → All (λ f. applies category f ≡ false) fs
    → filtered_from category b fs ≡ some b
filtered_from-none category b [] signed off = unfold filtered_from in refl
filtered_from-none category b (f ∷ fs) signed off =
    filtered_from-step category f b fs signed.0
    ∙ rw off.0 (filtered_from-none category b fs signed.1 off.1)

-- The last filter that applies to the category decides, whatever stands before it: the category is
-- filtered out exactly when the sign of that filter is a minus.
pub filtered_from-last :
    (category : Text) (b : Bool) (before : List Text) (f : Text) (after : List Text)
    → All (λ g. is_signed g ≡ true) (before ++ f ∷ after)
    → applies category f ≡ true
    → All (λ g. applies category g ≡ false) after
    → filtered_from category b (before ++ f ∷ after) ≡ some (starts_with f (codes "-"))
filtered_from-last category b [] f after signed on off =
    filtered_from-step category f b after signed.0
    ∙ rw on (filtered_from-none category (starts_with f (codes "-")) after signed.1 off)
filtered_from-last category b (g ∷ before) f after signed on off =
    filtered_from-step category g b (before ++ f ∷ after) signed.0
    ∙ filtered_from-last category (if applies category g then starts_with g (codes "-") else b)
        before f after signed.1 on off

filtered_from-ne-none :
    (category : Text) (b : Bool) (fs : List Text)
    → All (λ f. is_signed f ≡ true) fs
    → filtered_from category b fs ≢ none
filtered_from-ne-none category b [] signed = unfold filtered_from in λ e. cc
filtered_from-ne-none category b (f ∷ fs) signed = λ e.
    filtered_from-ne-none category (if applies category f then starts_with f (codes "-") else b) fs
      signed.1 (sym (filtered_from-step category f b fs signed.0) ∙ e)

-- Both lists of filters hold filters with a sign only.
pub record HasSigns (s : LintState) : Type 0 where
  pub in_use : All (λ f. is_signed f ≡ true) s.filters
  pub saved : All (λ f. is_signed f ≡ true) s.filters_backup

-- Where all filters in use have signs, the assertion of _ShouldPrintError holds: there is an answer.
pub should_print_error-signed :
    (category : Text) (confidence line : ℕ) (sup : Suppressions) (s : LintState)
    → All (λ f. is_signed f ≡ true) s.filters
    → should_print_error category confidence line sup s ≢ none
unfolding should_print_error
should_print_error-signed category confidence line sup s signed =
    ground (arith, filtered_from-ne-none category false s.filters signed)

pub should_print_error-ne-none :
    (category : Text) (confidence line : ℕ) (sup : Suppressions) (s : LintState)
    → HasSigns s
    → should_print_error category confidence line sup s ≢ none
should_print_error-ne-none category confidence line sup s h =
    should_print_error-signed category confidence line sup s h.in_use

first_unsigned-none : (fs : List Text) → first_unsigned fs ≡ none → All (λ f. is_signed f ≡ true) fs
unfolding first_unsigned
first_unsigned-none [] h = tt
first_unsigned-none (f ∷ fs) h = ground (arith, first_unsigned-none fs)

-- What the operations on filters return, when they do not raise, has filters with signs only.
pub add_filters-HasSigns :
    (filters : Text) (s : LintState)
    → HasSigns s
    → (add_filters filters s).1 ≡ none
    → HasSigns (add_filters filters s).0
unfolding add_filters
add_filters-HasSigns filters s h ok = record { in_use = first_unsigned-none _ ok; saved = h.saved }

-- When SetFilters does not raise, and the saved filters had signs, the filters in use and the saved
-- ones have signs.
set_filters-HasSigns :
    (filters : Text) (s : LintState)
    → HasSigns s
    → (set_filters filters s).1 ≡ none
    → HasSigns (set_filters filters s).0
unfolding set_filters default_filters starts_with
set_filters-HasSigns filters s h ok =
    add_filters-HasSigns filters (record s { filters = default_filters })
      (record { in_use = (refl, tt); saved = h.saved }) ok

-- A backup, any further filters, accepted or not, and a restore: the filters are what they were, and
-- so is every answer of _ShouldPrintError.
pub restore_filters-add_filters :
    (more : Text) (category : Text) (confidence line : ℕ) (sup : Suppressions) (s : LintState)
    → let s' = restore_filters (add_filters more (backup_filters s)).0 in
      (s'.filters ≡ s.filters)
      × (should_print_error category confidence line sup s'
          ≡ should_print_error category confidence line sup s)
unfolding restore_filters add_filters backup_filters should_print_error
restore_filters-add_filters more category confidence line sup s = (refl, refl)

-- The answer of _ShouldPrintError where the last filter that applies to the category is `f`: a
-- suppressed error and one below the verbosity are not printed, and any other is printed exactly when
-- the sign of `f` is no minus.
pub should_print_error-last_filter :
    (category : Text) (confidence line : ℕ) (sup : Suppressions) (s : LintState)
    (before : List Text) (f : Text) (after : List Text)
    → s.filters ≡ before ++ f ∷ after
    → HasSigns s
    → applies category f ≡ true
    → All (λ g. applies category g ≡ false) after
    → should_print_error category confidence line sup s
      ≡ some (
          not (is_error_suppressed_by_nolint category line sup)
          && (not (ltb confidence s.verbose_level) && not (starts_with f (codes "-"))))
unfolding should_print_error
should_print_error-last_filter category confidence line sup s before f after e h on off =
    ground (arith, decided)
  where
    signed : All (λ g. is_signed g ≡ true) (before ++ f ∷ after)
    signed = subst (All (λ g. is_signed g ≡ true)) e h.in_use

    decided : filtered_from category false s.filters ≡ some (starts_with f (codes "-"))
    decided =
        ap (filtered_from category false) e
        ∙ filtered_from-last category false before f after signed on off
