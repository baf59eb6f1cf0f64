-- ===== src/Config/Filters.antt =====
-- ProcessConfigOverrides of cpplint.py: which configuration file's filters count.
use myframe.Common.{
  ℕ, suc, ◌≡◌, refl, sym, ap, ◌∙◌, Bool, true, false, not, ◌&&◌, Option, none, some, List, [], ◌∷◌,
  ◌++◌, ltb, All, length, inl, inr, Option-cases, some_inj,
}
use mathlib.Core.Path.{subst}
use mathlib.Core.List.{append_assoc}
use myframe.Text.{Text, codes, split, starts_with}
use myframe.Suppress.{Suppressions, is_error_suppressed_by_nolint}
use myframe.Lint.{LintState, add_filters, clean_filters, should_print_error}
use myframe.Lint.Filters.{HasSigns, applies, add_filters-HasSigns, should_print_error-last_filter}
use myframe.Config.{
  Host, World, go_on, config_files, apply_filters, Processed, result, stopped, raise, end_of_config,
  process_config_overrides,
}
use myframe.Config.Keeps.{KeepsFilters, config_files-KeepsFilters}

apply_filters-step :
    (f : Text) (fs : List Text) (s : LintState)
    → (apply_filters (f ∷ fs) s).1 ≡ none
    → ((apply_filters fs s).1 ≡ none)
      × (apply_filters (f ∷ fs) s ≡ add_filters f (apply_filters fs s).0)
unfolding apply_filters
apply_filters-step f fs s ok = elim (Option-cases (apply_filters fs s).1) [
  | inl e ↦ (e, rw (apply_filters, e) refl)
  | inr (u, e) ↦ absurd (some-ne-none u (rw (← ok, apply_filters, e) refl))
]
  where
    some-ne-none : (u : Text) → some u ≡ none → ⊥
    some-ne-none u h = cc

apply_filters-HasSigns :
    (fs : List Text) (s : LintState)
    → HasSigns s
    → (apply_filters fs s).1 ≡ none
    → HasSigns (apply_filters fs s).0
unfolding apply_filters
apply_filters-HasSigns [] s h ok = h
apply_filters-HasSigns (f ∷ fs) s h ok =
    let (below, e) = apply_filters-step f fs s ok in
    subst (λ (x : LintState × Option Text). HasSigns x.0) (sym e)
      (add_filters-HasSigns f (apply_filters fs s).0 (apply_filters-HasSigns fs s h below)
        (ap (λ (x : LintState × Option Text). x.1) (sym e) ∙ ok))

apply_filters-verbose :
    (fs : List Text) (s : LintState)
    → (apply_filters fs s).1 ≡ none
    → (apply_filters fs s).0.verbose_level ≡ s.verbose_level
unfolding apply_filters add_filters
apply_filters-verbose [] s ok = refl
apply_filters-verbose (f ∷ fs) s ok =
    let (below, e) = apply_filters-step f fs s ok in
    ap (λ (x : LintState × Option Text). x.0.verbose_level) e ∙ apply_filters-verbose fs s below

-- What ProcessConfigOverrides returns where the loop up the directories has ended
returned :
    (w w' : World) (keep : Bool) (fs : List Text)
    → end_of_config (w, go_on keep fs) ≡ (w', result true)
    → ((apply_filters fs w.lint).1 ≡ none) × (w'.lint ≡ (apply_filters fs w.lint).0)
returned w w' keep fs e = elim (Option-cases (apply_filters fs w.lint).1) [
  | inl ok ↦ (ok, ap (λ (x : World × Processed). x.0.lint) (sym e))
  | inr (u, bad) ↦ absurd (
      stopped-ne u (
        subst
          (λ o.
            (elim o as (λ _. Processed) [ none ↦ result true | some f ↦ stopped (raise f) ])
            ≡ result true)
          bad (ap (λ (x : World × Processed). x.1) e)))
]
  where
    stopped-ne : (u : Text) → stopped (raise u) ≡ result true → ⊥
    stopped-ne u h = cc

HasSigns-same : (s t : LintState) → KeepsFilters s t → HasSigns s → HasSigns t
HasSigns-same s t (a, b, _) h = record { in_use = rw a h.in_use; saved = rw b h.saved }

-- If the loop up the directories has collected filter options, the first of them `near`, that of the
-- nearest configuration file, and ProcessConfigOverrides returns True, then the last filter of `near`
-- that applies to a category decides whether an error is printed, whatever the other files, --filter and
-- the default filters say: a suppressed error and one below the verbosity are not printed, and any other
-- is printed exactly when the sign of that filter is no minus.
pub process_config_overrides-nearest :
    (host : Host) (filename : Text) (w w1 w' : World) (keep : Bool) (near : Text) (rest : List Text)
    (category : Text) (confidence line : ℕ) (sup : Suppressions) (before : List Text) (f : Text)
    (after : List Text)
    → HasSigns w.lint
    → let path = host.os.abspath filename in
      config_files (suc (length path)) host filename path [] w ≡ some (w1, go_on keep (near ∷ rest))
      → process_config_overrides host filename w ≡ some (w', result true)
      → clean_filters (split b',' near) ≡ before ++ f ∷ after
      → applies category f ≡ true
      → All (λ g. applies category g ≡ false) after
      → should_print_error category confidence line sup w'.lint
        ≡ some (
            not (is_error_suppressed_by_nolint category line sup)
            && (not (ltb confidence w.lint.verbose_level) && not (starts_with f (codes "-"))))
unfolding process_config_overrides add_filters
process_config_overrides-nearest host filename w w1 w' keep near rest category confidence line sup
      before f after signs collected e parts on off =
    let path = host.os.abspath filename in
    let same = config_files-KeepsFilters (suc (length path)) host filename path [] w _ collected in
    let ended : some (end_of_config (w1, go_on keep (near ∷ rest))) ≡ some (w', result true) =
      rw (← e, process_config_overrides, collected) refl in
    let (ok, lint) = returned w1 w' keep (near ∷ rest) (some_inj _ _ ended) in
    let (below, step) = apply_filters-step near rest w1.lint ok in
    let signs' =
      apply_filters-HasSigns (near ∷ rest) w1.lint (HasSigns-same w.lint w1.lint same signs) ok in
    let s' = (apply_filters rest w1.lint).0 in
    let verbose : w'.lint.verbose_level ≡ w.lint.verbose_level =
      ap (λ (s : LintState). s.verbose_level) lint
      ∙ apply_filters-verbose (near ∷ rest) w1.lint ok
      ∙ same.2 in
    let filters : w'.lint.filters ≡ (s'.filters ++ before) ++ f ∷ after =
      ap (λ (s : LintState). s.filters) lint
      ∙ ap (λ (x : LintState × Option Text). x.0.filters) step
      ∙ ap (λ t. s'.filters ++ t) parts
      ∙ sym (append_assoc s'.filters before (f ∷ after)) in
    rw (← verbose) (
      should_print_error-last_filter category confidence line sup w'.lint (s'.filters ++ before) f
        after filters (subst HasSigns (sym lint) signs') on off)
