-- ===== src/Arguments/Excludes.antt =====
-- ParseArguments of cpplint.py: what holds of the files that it returns.
use myframe.Common.{
  ◌≡◌, ◌⊎◌, refl, sym, ap, ◌∙◌, Bool, true, false, not, Option, none, some, List, [], ◌∷◌,
  if◌then◌else◌, inl, inr, All, arith, Bool-cases, Option-cases,
}
use mathlib.Core.Path.{subst}
use myframe.Text.{Text, codes, text_lt}
use myframe.Options.{Options, fatal}
use myframe.Config.{World, Stop, exit, raise}
use myframe.Arguments.Below.{JoinsPaths, IsAt, is_excluded-IsAt}
use myframe.Arguments.{
  Shell, Settings, Try, ok, stop, keep_if, is_excluded, filter_excluded_files, insert, sort,
  files_to_lint, apply_settings, init_settings, on_options, finish, parse_arguments,
}

text_lt-flip : (s t : Text) → text_lt s t ≡ true → text_lt t s ≡ false
unfolding text_lt
text_lt-flip s [] h = cc
text_lt-flip [] (d ∷ t) h = refl
text_lt-flip (c ∷ s) (d ∷ t) h = ground (arith, text_lt-flip s t)

-- Each text is followed by no smaller one.
abbrev pub IsSorted : List Text → Type 0
IsSorted [] = Unit
IsSorted (t ∷ []) = Unit
IsSorted (t ∷ u ∷ us) = (text_lt u t ≡ false) × IsSorted (u ∷ us)

insert-IsSorted : (t : Text) (us : List Text) → IsSorted us → IsSorted (insert t us)
insert-IsSorted t [] h = tt
insert-IsSorted t (u ∷ []) h = elim (Bool-cases (text_lt u t)) [
  | inl less ↦ rw less (text_lt-flip u t less, tt)
  | inr not_less ↦ rw not_less (not_less, tt)
]
insert-IsSorted t (u ∷ v ∷ us) h = elim (Bool-cases (text_lt u t)) [
  | inr not_less ↦ rw not_less (not_less, h)
  | inl less ↦ elim (Bool-cases (text_lt v t)) [
    | inl less' ↦
        rw (less, less')
          (
            h.0,
            subst (λ b. IsSorted (if b then v ∷ insert t us else t ∷ v ∷ us)) less'
                (insert-IsSorted t (v ∷ us) h.1),
          )
    | inr not_less ↦ rw (less, not_less) (text_lt-flip u t less, (not_less, h.1))
  ]
]

sort-IsSorted : (ts : List Text) → IsSorted (sort ts)
unfolding sort
sort-IsSorted [] = tt
sort-IsSorted (t ∷ ts) = insert-IsSorted t (sort ts) (sort-IsSorted ts)

module _ (p : Text → Bool) where
  insert-All :
      (t : Text) (us : List Text)
      → p t ≡ true
      → All (λ u. p u ≡ true) us
      → All (λ u. p u ≡ true) (insert t us)
  insert-All t [] h all = (h, tt)
  insert-All t (u ∷ us) h all = ground (arith, insert-All t us)

  sort-All : (ts : List Text) → All (λ t. p t ≡ true) ts → All (λ t. p t ≡ true) (sort ts)
  unfolding sort
  sort-All [] all = tt
  sort-All (t ∷ ts) all = insert-All t (sort ts) all.0 (sort-All ts all.1)

  keep_if-All : (ts : List Text) → All (λ t. p t ≡ true) (keep_if p ts)
  keep_if-All [] = tt
  keep_if-All (t ∷ ts) = elim (Bool-cases (p t)) [
    | inl h ↦ rw h (h, keep_if-All ts)
    | inr h ↦ rw h (keep_if-All ts)
  ]

  All-of : ((t : Text) → p t ≡ true) → (ts : List Text) → All (λ t. p t ≡ true) ts
  All-of h [] = tt
  All-of h (t ∷ ts) = (h t, All-of h ts)

  All-false :
      (q : Text → Bool)
      → ((t : Text) → p t ≡ not (q t))
      → (ts : List Text) → All (λ t. p t ≡ true) ts
      → All (λ t. q t ≡ false) ts
  All-false q same [] all = tt
  All-false q same (t ∷ ts) all = (of_not (q t) (sym (same t) ∙ all.0), All-false q same ts all.1)
    where
      of_not : (b : Bool) → not b ≡ true → b ≡ false
      of_not b h = ground arith

abbrev is_kept : Shell → Options → Text → Bool
is_kept shell o f = not (is_excluded shell o f)

pick-All :
    (P : Text → Type 0) (es a b : List Text)
    → (es ≡ [] → All P a)
    → All P b
    → All P (elim es as (λ _. List Text) [ [] ↦ a | e ∷ rest ↦ b ])
pick-All P [] a b h k = h refl
pick-All P (e ∷ es) a b h k = k

files_to_lint-All :
    (shell : Shell) (g : Settings) (o : Options) (names : List Text)
    → All (λ f. is_kept shell o f ≡ true) (files_to_lint shell g o names)
unfolding files_to_lint filter_excluded_files
files_to_lint-All shell g o names =
    pick-All (λ f. is_kept shell o f ≡ true) o.excludes _ _
      (λ e. All-of (is_kept shell o) (λ f. rw e refl) _) (keep_if-All (is_kept shell o) _)

All-IsAt :
    (shell : Shell) (o : Options)
    → JoinsPaths shell
    → (fs : List Text) → All (λ f. is_excluded shell o f ≡ false) fs
    → All (λ f. All (λ e. ¬ IsAt shell e f) o.excludes) fs
All-IsAt shell o joins [] all = tt
All-IsAt shell o joins (f ∷ fs) all =
    (is_excluded-IsAt shell o f joins all.0, All-IsAt shell o joins fs all.1)

-- What the end of ParseArguments returns, if it returns
finished :
    (shell : Shell) (names : List Text) (g : Settings) (o : Options) (w w' : World)
    (files : List Text)
    → finish shell names g o w ≡ (w', ok files)
    → (w'.options ≡ o) × (files ≡ sort (files_to_lint shell g o names))
unfolding finish
finished shell [] g o w w' files e =
    absurd (other _ files (ap (λ (x : World × Try (List Text)). x.1) e))
  where
    other : (s : Stop) (files : List Text) → stop s ≡ ok files → ⊥
    other s files h = cc
finished shell (n ∷ ns) g o w w' files e = elim (Option-cases (apply_settings g w.lint).1) [
  | inl fine ↦ (
    ap (λ (x : World × Try (List Text)). x.0.options) (sym e),
    ok_inj _ _ (
        sym
          (subst (λ r. result_of r ≡ ok files) fine (ap (λ (x : World × Try (List Text)). x.1) e))),
  )
  | inr (f, bad) ↦ absurd (
      other f
        (subst (λ r. result_of r ≡ ok files) bad (ap (λ (x : World × Try (List Text)). x.1) e)))
]
  where
    result_of : Option Text → Try (List Text)
    result_of raised = elim raised [
      | none ↦ ok (sort (files_to_lint shell g o (n ∷ ns)))
      | some f ↦ stop (raise f)
    ]

    ok_inj : (a b : List Text) → ok a ≡ ok b → a ≡ b
    ok_inj a b h = cc

    other : (f : Text) → result_of (some f) ≡ ok files → ⊥
    other f h = cc

Try-cases : {A : Type 0} (t : Try A) → ((a : A) × (t ≡ ok a)) ⊎ ((s : Stop) × (t ≡ stop s))
Try-cases (ok a) = inl (a, refl)
Try-cases (stop s) = inr (s, refl)

-- If os.path joins paths and finds common prefixes as documented, and ParseArguments returns, then the
-- files come in order, and none of them is a path that --exclude names, or below one that is not the
-- root, once all are made absolute and normalized, whether directories are searched or not.
pub parse_arguments-files :
    (shell : Shell) (args : List Text) (w w' : World) (files : List Text)
    → JoinsPaths shell
    → parse_arguments shell args w ≡ (w', ok files)
    → IsSorted files × All (λ f. All (λ e. ¬ IsAt shell e f) w'.options.excludes) files
unfolding parse_arguments
parse_arguments-files shell args w w' files joins e = elim (Option-cases (shell.getopt args)) [
  | inl none_got ↦
      let usage = exit (fatal (codes "Invalid arguments.")) in
      let h : (w, stop usage) ≡ (w', ok files) = rw (← e, parse_arguments, none_got) refl in
      absurd (other usage (second h))
  | inr ((opts, names), parsed) ↦
      elim (Try-cases (on_options shell opts (init_settings w.lint) w.options)) [
        | inr (s, stops) ↦
            let h : (w, stop s) ≡ (w', ok files) = rw (← e, parse_arguments, parsed, stops) refl in
            absurd (other s (second h))
        | inl ((g, o), done) ↦
            let (options, sorted) =
              finished shell names g o w w' files (rw (← e, parse_arguments, parsed, done) refl) in
            rw (sorted, options)
              (
                sort-IsSorted (files_to_lint shell g o names),
                All-IsAt shell o joins _ (
                    All-false (is_kept shell o) (is_excluded shell o) (λ f. refl) _
                      (sort-All (is_kept shell o) _ (files_to_lint-All shell g o names))),
              )
      ]
]
  where
    second : {x : World × Try (List Text)} → x ≡ (w', ok files) → x.1 ≡ ok files
    second h = ap (λ (y : World × Try (List Text)). y.1) h

    other : (s : Stop) → stop s ≡ ok files → ⊥
    other s h = cc
