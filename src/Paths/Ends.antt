-- ===== src/Paths/Ends.antt =====
-- FileInfo.RepositoryName of cpplint.py: whether its loops up the directories end.
use myframe.Common.{
  ℕ, zero, suc, ◌≤◌, ◌<◌, ◌≡◌, ◌≢◌, ◌⊎◌, inl, inr, refl, ap, ◌∙◌, true, false, not, Option, none,
  some, ◌>>=◌, arith, length, if-both,
}
use myframe.Text.{Text, text_eq}
use myframe.Text.Laws.{text_eq_refl}
use myframe.Paths.{
  Os, given, in_repository, full_name, find_repository, has_svn, svn_root, vcs_root,
  name_in_checkout, repository_name,
}

-- os.path.dirname leads to the topmost directory, which it leaves as it is, and else shortens the path.
abbrev pub ShortensPaths : Os → Type 0
ShortensPaths os = (p : Text) → (os.dirname p ≡ p) ⊎ (length (os.dirname p) < length p)

-- No topmost directory has a .svn.
abbrev pub HasPlainTop : Os → Type 0
HasPlainTop os = (p : Text) → os.dirname p ≡ p → has_svn os p ≡ false

IsDone : {A : Type 0} → Option A → Type 0
IsDone o = o ≢ none

some-IsDone : {A : Type 0} (a : A) → IsDone (some a)
unfolding IsDone
some-IsDone a h = cc

topmost : (os : Os) (p : Text) → os.dirname p ≡ p → text_eq (os.dirname p) p ≡ true
topmost os p top = ap (λ q. text_eq q p) top ∙ text_eq_refl p

topmost_flip : (os : Os) (p : Text) → os.dirname p ≡ p → text_eq p (os.dirname p) ≡ true
topmost_flip os p top = ap (λ q. text_eq p q) top ∙ text_eq_refl p

>>=-IsDone : {A B : Type 0} (o : Option A) (f : A → B) → IsDone o → IsDone (o >>= λ a. some (f a))
unfolding IsDone
>>=-IsDone none f h e = h refl
>>=-IsDone (some a) f h e = cc

module _ (os : Os) (shortens : ShortensPaths os) where
  find_repository-IsDone :
      (fuel : ℕ) (repo root_dir : Text)
      → length root_dir < fuel
      → IsDone (find_repository os fuel repo root_dir)
  unfolding find_repository
  find_repository-IsDone zero repo root_dir h = absurd (omega arith)
  find_repository-IsDone (suc fuel) repo root_dir h = elim (shortens root_dir) [
    | inl top ↦ if-both IsDone (not (os.exists root_dir)) _ _ (some-IsDone none) (
        if-both IsDone (text_eq (os.normcase root_dir) (os.normcase repo)) _ _
          (some-IsDone (some root_dir)) (rw (topmost os root_dir top) (some-IsDone none)))
    | inr shorter ↦ if-both IsDone (not (os.exists root_dir)) _ _ (some-IsDone none) (
        if-both IsDone (text_eq (os.normcase root_dir) (os.normcase repo)) _ _
          (some-IsDone (some root_dir))
          (if-both IsDone (text_eq (os.dirname root_dir) root_dir) _ _ (some-IsDone none)
            (find_repository-IsDone fuel repo (os.dirname root_dir) (omega arith))))
  ]

  vcs_root-IsDone :
      (fuel : ℕ) (root_dir current_dir : Text)
      → length current_dir < fuel
      → IsDone (vcs_root os fuel root_dir current_dir)
  unfolding vcs_root
  vcs_root-IsDone zero root_dir current_dir h = absurd (omega arith)
  vcs_root-IsDone (suc fuel) root_dir current_dir h = elim (shortens current_dir) [
    | inl top ↦ rw (topmost_flip os current_dir top) (some-IsDone root_dir)
    | inr shorter ↦
        if-both IsDone (text_eq current_dir (os.dirname current_dir)) _ _ (some-IsDone root_dir)
          (vcs_root-IsDone fuel _ (os.dirname current_dir) (omega arith))
  ]

  svn_root-IsDone :
      HasPlainTop os
      → (fuel : ℕ) (root_dir one_up_dir : Text) → length one_up_dir < fuel
      → IsDone (svn_root os fuel root_dir one_up_dir)
  unfolding svn_root
  svn_root-IsDone plain zero root_dir one_up_dir h = absurd (omega arith)
  svn_root-IsDone plain (suc fuel) root_dir one_up_dir h = elim (shortens one_up_dir) [
    | inl top ↦ rw (plain one_up_dir top) (some-IsDone root_dir)
    | inr shorter ↦
        if-both IsDone (has_svn os one_up_dir) _ _
          (svn_root-IsDone plain fuel (os.dirname root_dir) (os.dirname one_up_dir) (omega arith))
          (some-IsDone root_dir)
  ]

  dirname-le : (p : Text) → length (os.dirname p) ≤ length p
  dirname-le p = elim (shortens p) [ inl top ↦ rw top (omega arith) | inr shorter ↦ omega arith ]

  name_in_checkout-IsDone :
      HasPlainTop os → (fullname : Text) → IsDone (name_in_checkout os fullname)
  unfolding name_in_checkout
  name_in_checkout-IsDone plain fullname =
      let project_dir = os.dirname fullname in
      if-both IsDone (has_svn os project_dir) _ _
        (>>=-IsDone (svn_root os (suc (length fullname)) project_dir (os.dirname project_dir)) _ (
          svn_root-IsDone plain (suc (length fullname)) project_dir (os.dirname project_dir)
            (omega (arith, dirname-le fullname, dirname-le project_dir))))
        (>>=-IsDone (vcs_root os (suc (length fullname)) project_dir project_dir) _ (
          vcs_root-IsDone (suc (length fullname)) project_dir project_dir
            (omega (arith, dirname-le fullname))))

  searched-IsDone :
      HasPlainTop os
      → (fullname : Text) (o : Option (Option Text)) → IsDone o
      → IsDone (in_repository os fullname o)
  unfolding IsDone
  searched-IsDone plain fullname none h = absurd (h refl)
  searched-IsDone plain fullname (some none) h = name_in_checkout-IsDone plain fullname
  searched-IsDone plain fullname (some (some root_dir)) h = some-IsDone _

  given-IsDone :
      HasPlainTop os
      → (fullname : Text) (o : Option Text)
      → IsDone (elim o as (λ _. Option Text) [
        | none ↦ name_in_checkout os fullname
        | some repo ↦
            in_repository os fullname
              (find_repository os (suc (length fullname)) (full_name os repo) (os.dirname fullname))
      ])
  given-IsDone plain fullname none = name_in_checkout-IsDone plain fullname
  given-IsDone plain fullname (some repo) = searched-IsDone plain fullname _ (
      find_repository-IsDone (suc (length fullname)) (full_name os repo) (os.dirname fullname)
        (omega (arith, dirname-le fullname)))

-- If os.path.dirname leaves a path as it is or shortens it, and no topmost directory has a .svn, then
-- the loops of RepositoryName end and it returns a name, with a repository option and without one. The
-- characters of the path are rounds enough for each loop.
pub repository_name-ne-none :
    (os : Os) (repository : Option Text) (filename : Text)
    → ShortensPaths os
    → HasPlainTop os
    → repository_name os repository filename ≢ none
unfolding repository_name IsDone
repository_name-ne-none os repository filename shortens plain =
    if-both IsDone (not (os.exists (full_name os filename))) _ _ (some-IsDone _)
      (given-IsDone os shortens plain (full_name os filename) (given repository))

-- If the topmost directory has a .svn, then the loop over the directories with a .svn does not end once
-- it has come up to there, after any number of rounds.
pub svn_root-none :
    (os : Os) (fuel : ℕ) (root_dir top : Text)
    → os.dirname top ≡ top
    → has_svn os top ≡ true
    → svn_root os fuel root_dir top ≡ none
unfolding svn_root
svn_root-none os zero root_dir top stays svn = refl
svn_root-none os (suc fuel) root_dir top stays svn =
    rw (svn, stays) (svn_root-none os fuel (os.dirname root_dir) top stays svn)
