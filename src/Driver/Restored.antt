-- ===== src/Driver/Restored.antt =====
-- ProcessFile of cpplint.py: the filters behind it.
use myframe.Common.{
  ℕ, suc, ◌≡◌, refl, sym, ap, ◌∙◌, true, false, not, ◌&&◌, ◌||◌, ◌==◌, Option, none, some, List, [],
  ◌∷◌, ◌++◌, ◌>>=◌, length, inl, inr, Option-cases, if-both, some_inj, >>=-eq-some,
}
use mathlib.Core.Path.{subst}
use myframe.Text.{Text, codes, text_eq, is_one_of, split}
use myframe.Lint.{LintState, add_filters, set_verbose_level, backup_filters, restore_filters}
use myframe.Options.{get_all_extensions}
use myframe.Config.{
  Host, World, Next, go_on, excluded, stops, Processed, result, stopped, apply_filters,
  end_of_config, config_files, print_error_in, print_info_in, process_config_overrides,
}
use myframe.Config.Keeps.{config_files-KeepsFilters, print_error_in-KeepsFilters}
use myframe.Driver.{Checks, Linting}
use myframe.Driver.Saved.{Saved, report_all-Saved, process_file_data-Saved}
use myframe.Driver.File.{
  Input, Lines, with_linting, done_processing, strip_lines, extension_of, mixed_ends, Program,
  contents, check_file, restored, lint_file, returned, behind_config, process_file,
}

apply_filters-backup :
    (fs : List Text) (s : LintState) → (apply_filters fs s).0.filters_backup ≡ s.filters_backup
unfolding apply_filters add_filters
apply_filters-backup [] s = refl
apply_filters-backup (f ∷ fs) s = elim (Option-cases (apply_filters fs s).1) [
  | inl e ↦ rw (apply_filters, e) (apply_filters-backup fs s)
  | inr (u, e) ↦ rw (apply_filters, e) (apply_filters-backup fs s)
]

end_of_config-backup :
    (out : World × Next) → (end_of_config out).0.lint.filters_backup ≡ out.0.lint.filters_backup
end_of_config-backup (w, go_on keep fs) = apply_filters-backup fs w.lint
end_of_config-backup (w, excluded) = refl
end_of_config-backup (w, stops s) = refl

process_config_overrides-backup :
    (host : Host) (filename : Text) (w w' : World) (r : Processed)
    → process_config_overrides host filename w ≡ some (w', r)
    → w'.lint.filters_backup ≡ w.lint.filters_backup
unfolding process_config_overrides
process_config_overrides-backup host filename w w' r e =
    let path = host.os.abspath filename in
    elim (Option-cases (config_files (suc (length path)) host filename path [] w)) [
      | inl missing ↦ absurd (ne (rw (← e, process_config_overrides, missing) refl))
      | inr (out, found) ↦
          let ended : some (end_of_config out) ≡ some (w', r) =
            rw (← e, process_config_overrides, found) refl in
          ap (λ (x : World × Processed). x.0.lint.filters_backup) (sym (some_inj _ _ ended))
          ∙ end_of_config-backup out
          ∙ (config_files-KeepsFilters (suc (length path)) host filename path [] w out found).1
    ]
  where
    ne : ◌≡◌ {A = Option (World × Processed)} none (some (w', r)) → ⊥
    ne h = cc

-- The filters that were saved, or those in use, are these, if there is a result.
HasSaved : List Text → Option Program → Type 0
HasSaved b none = Unit
HasSaved b (some p) = p.world.lint.filters_backup ≡ b

Restores : List Text → Option Program → Type 0
Restores b none = Unit
Restores b (some p) = p.world.lint.filters ≡ b

>>=-HasSaved :
    (b : List Text) (m : Option Linting) (f : Linting → Option Program)
    → Saved b m
    → ((st : Linting) → st.lint.filters_backup ≡ b → HasSaved b (f st))
    → HasSaved b (m >>= f)
unfolding myframe.Driver.Holds.Holds HasSaved
>>=-HasSaved b none f h k = tt
>>=-HasSaved b (some st) f h k = k st h

some-HasSaved :
    (b : List Text) (p : Program) → p.world.lint.filters_backup ≡ b → HasSaved b (some p)
unfolding HasSaved
some-HasSaved b p h = h

done_processing-backup :
    (checks : Checks) (input : Input) (host : Host) (filename : Text) (old_errors : ℕ) (p : Program)
    → (done_processing checks input host filename old_errors p).world.lint.filters_backup
      ≡ p.world.lint.filters_backup
unfolding print_info_in
done_processing-backup checks input host filename old_errors p =
    if-both (λ (q : Program). q.world.lint.filters_backup ≡ p.world.lint.filters_backup)
      (not p.world.lint.quiet || not (old_errors == p.world.lint.error_count)) _ p refl refl

module _ (checks : Checks) (input : Input) (host : Host) (b : List Text) where
  check_file-HasSaved :
      (filename : Text) (r : Lines) (p : Program)
      → p.world.lint.filters_backup ≡ b
      → HasSaved b (check_file checks input host filename r p)
  unfolding check_file
  check_file-HasSaved filename r p h =
      if-both (HasSaved b)
        (not (text_eq filename (codes "-"))
          && not (is_one_of (extension_of filename) (get_all_extensions p.world.options)))
        _ _ (some-HasSaved b _ ((print_error_in-KeepsFilters _ p.world).1 ∙ h))
        (>>=-HasSaved b _ _
          (process_file_data-Saved b checks p.world.options filename (extension_of filename) r.lines
            p.suppressions p.world.lint p.world.console h)
          (λ st h1.
            >>=-HasSaved b _ _ (report_all-Saved b filename (mixed_ends r) st h1)
              (λ st' h2. some-HasSaved b (with_linting p st') h2)))

  finished-Restores :
      (filename : Text) (old_errors : ℕ) (m : Option Program)
      → HasSaved b m
      → Restores b (
          m >>= λ p'.
          some
            (restored checks input host (done_processing checks input host filename old_errors p')))
  unfolding HasSaved Restores restore_filters
  finished-Restores filename old_errors none h = tt
  finished-Restores filename old_errors (some p') h =
      done_processing-backup checks input host filename old_errors p' ∙ h

  lint_file-Restores :
      (filename : Text) (old_errors : ℕ) (p : Program)
      → p.world.lint.filters_backup ≡ b
      → Restores b (lint_file checks input host filename old_errors p)
  unfolding lint_file Restores restore_filters
  lint_file-Restores filename old_errors p h = by_contents (contents checks input host filename)
    where
      by_contents :
          (o : Option Text)
          → Restores b (elim o as (λ _. Option Program) [
            | none ↦ some (
                restored checks input host (record p {
                  world =
                      print_error_in
                        (codes "Skipping input '"
                          ++ (filename ++ (codes "': Can't open for reading" ++ 10 ∷ [])))
                        p.world;
                }))
            | some text ↦
                (check_file checks input host filename (strip_lines 1 (split 10 text)) p >>= λ p'.
                some (
                  restored checks input host
                    (done_processing checks input host filename old_errors p')))
          ])
      by_contents none = (print_error_in-KeepsFilters _ p.world).1 ∙ h
      by_contents (some text) =
          finished-Restores filename old_errors _
            (check_file-HasSaved filename (strip_lines 1 (split 10 text)) p h)

returned_inj : (p q : Program) → returned p ≡ returned q → p ≡ q
returned_inj p q h = cc

behind_config-filters :
    (checks : Checks) (input : Input) (host : Host) (b : List Text) (filename : Text)
    (old_errors : ℕ) (p p' : Program) (o : Option (World × Processed))
    → ((w : World) (r : Processed) → o ≡ some (w, r) → w.lint.filters_backup ≡ b)
    → behind_config checks input host filename old_errors p o ≡ some (returned p')
    → p'.world.lint.filters ≡ b
unfolding restore_filters Restores
behind_config-filters checks input host b filename old_errors p p' none saved e = cc
behind_config-filters checks input host b filename old_errors p p' (some (w, stopped s)) saved e =
    cc
behind_config-filters checks input host b filename old_errors p p' (some (w, result false)) saved
      e =
    ap (λ (q : Program). q.world.lint.filters) (sym (returned_inj _ _ (some_inj _ _ e)))
    ∙ saved w (result false) refl
behind_config-filters checks input host b filename old_errors p p' (some (w, result true)) saved e =
    let from : Program = record p { world = w } in
    let (q, linted, e') = >>=-eq-some (lint_file checks input host filename old_errors from) _ e in
    ap (λ (x : Program). x.world.lint.filters) (sym (returned_inj _ _ (some_inj _ _ e')))
    ∙ subst (Restores b) linted (
        lint_file-Restores checks input host b filename old_errors from
          (saved w (result true) refl))

-- When ProcessFile returns, whether the file was checked, excluded by a configuration file, not to be
-- read or without a valid extension, the filters are what they were before: what the configuration files
-- of its directories add does not reach the next file.
pub process_file-filters :
    (checks : Checks) (input : Input) (host : Host) (filename : Text) (vlevel : ℕ) (p p' : Program)
    → process_file checks input host filename vlevel p ≡ some (returned p')
    → p'.world.lint.filters ≡ p.world.lint.filters
unfolding process_file set_verbose_level backup_filters
process_file-filters checks input host filename vlevel p p' e =
    let lint = backup_filters (set_verbose_level vlevel p.world.lint).0 in
    let w : World = record p.world { lint = lint } in
    behind_config-filters checks input host p.world.lint.filters filename lint.error_count
      (record p { world = w }) p' (process_config_overrides host filename w)
      (λ w' r e'. process_config_overrides-backup host filename w w' r e') e
