-- ===== src/Paths.antt =====
-- class FileInfo of cpplint.py: a file's path relative to its repository.
pub mod Ends
use myframe.Common.{
  ℕ, zero, suc, ◌+◌, Bool, not, ◌||◌, Option, none, some, [], ◌∷◌, if◌then◌else◌, length, drop,
  ◌>>=◌,
}
use myframe.Text.{Text, codes, text_eq, replace, join}
use myframe.Options.{Options, is_source_extension}

-- What the code calls of os.path
pub record Os : Type 0 where
  pub abspath : Text → Text
  pub dirname : Text → Text
  pub normcase : Text → Text
  pub normpath : Text → Text
  pub relpath : Text → Text → Text
  pub commonprefix : Text → Text → Text
  pub join_path : Text → Text → Text
  pub split_path : Text → Text × Text
  pub splitext : Text → Text × Text
  pub exists : Text → Bool

abbrev pub slashes : Text → Text
slashes = replace (92 ∷ []) (codes "/")

-- `if _repository`: a repository that is not empty
abbrev pub given : Option Text → Option Text
given none = none
given (some []) = none
given (some (c ∷ s)) = some (c ∷ s)

module _ (os : Os) where
  -- FullName()
  unfoldable pub full_name : Text → Text
  unfolding replace
  full_name filename = slashes (os.abspath filename)

  -- The loop up from the directory to the given repository, `some none` if it is not met; `none` tells
  -- that the fuel ran out, here and below.
  unfoldable pub find_repository : ℕ → Text → Text → Option (Option Text)
  unfolding text_eq
  find_repository zero repo root_dir = none
  find_repository (suc fuel) repo root_dir =
      let one_up_dir = os.dirname root_dir in
      let further = find_repository fuel repo one_up_dir in
      if not (os.exists root_dir)
      then some none
      else if text_eq (os.normcase root_dir) (os.normcase repo)
      then some (some root_dir)
      else if text_eq one_up_dir root_dir
      then some none
      else further

  abbrev pub has_svn : Text → Bool
  has_svn dir = os.exists (os.join_path dir (codes ".svn"))

  -- The loop up from the directory as long as there is a .svn above
  unfoldable pub svn_root : ℕ → Text → Text → Option Text
  svn_root zero root_dir one_up_dir = none
  svn_root (suc fuel) root_dir one_up_dir =
      let further = svn_root fuel (os.dirname root_dir) (os.dirname one_up_dir) in
      if has_svn one_up_dir then further else some root_dir

  abbrev pub has_vcs : Text → Bool
  has_vcs dir =
      os.exists (os.join_path dir (codes ".git"))
      || os.exists (os.join_path dir (codes ".hg"))
      || has_svn dir

  -- The loop up to the topmost directory, which remembers the last one under version control
  unfoldable pub vcs_root : ℕ → Text → Text → Option Text
  unfolding text_eq
  vcs_root zero root_dir current_dir = none
  vcs_root (suc fuel) root_dir current_dir =
      let further =
        vcs_root fuel (if has_vcs current_dir then current_dir else root_dir)
          (os.dirname current_dir) in
      if text_eq current_dir (os.dirname current_dir) then some root_dir else further

  -- The path behind the common prefix of the root and the directory
  abbrev behind_root : Text → Text → Text → Text
  behind_root fullname project_dir root_dir =
      drop (length (os.commonprefix root_dir project_dir) + 1) fullname

  abbrev below_vcs : Text → Text → Text → Text
  below_vcs fullname project_dir root_dir =
      if has_vcs root_dir then behind_root fullname project_dir root_dir else fullname

  -- What follows where no repository was given, or none was found
  unfoldable pub name_in_checkout : Text → Option Text
  unfolding svn_root vcs_root
  name_in_checkout fullname =
      let project_dir = os.dirname fullname in
      let fuel = suc (length fullname) in
      let by_svn = svn_root fuel project_dir (os.dirname project_dir) in
      let by_vcs = vcs_root fuel project_dir project_dir in
      if has_svn project_dir
      then (by_svn >>= λ root_dir. some (behind_root fullname project_dir root_dir))
      else (by_vcs >>= λ root_dir. some (below_vcs fullname project_dir root_dir))

  abbrev pub in_repository : Text → Option (Option Text) → Option Text
  in_repository fullname none = none
  in_repository fullname (some none) = name_in_checkout fullname
  in_repository fullname (some (some root_dir)) = some (slashes (os.relpath fullname root_dir))

  -- RepositoryName(), by _repository
  unfoldable pub repository_name : Option Text → Text → Option Text
  unfolding full_name name_in_checkout find_repository
  repository_name repository filename =
      let fullname = full_name filename in
      if not (os.exists fullname) then some fullname else elim (given repository) [
        | none ↦ name_in_checkout fullname
        | some repo ↦
            in_repository fullname
              (find_repository (suc (length fullname)) (full_name repo) (os.dirname fullname))
      ]

  -- Split(): the directory, the base name and the extension
  unfoldable pub split_file : Option Text → Text → Option (Text × Text × Text)
  unfolding repository_name
  split_file repository filename = do
    googlename ← repository_name repository filename
    let (project, rest) = os.split_path googlename
    let (base, extension) = os.splitext rest
    some (project, base, extension)

  -- BaseName(), Extension(), NoExtension() and IsSource()
  unfoldable pub base_name : Option Text → Text → Option Text
  unfolding split_file
  base_name repository filename = do
    (project, base, extension) ← split_file repository filename
    some base

  unfoldable pub extension : Option Text → Text → Option Text
  unfolding split_file
  extension repository filename = do (project, base, ext) ← split_file repository filename; some ext

  unfoldable pub no_extension : Option Text → Text → Option Text
  unfolding split_file
  no_extension repository filename = do
    (project, base, ext) ← split_file repository filename
    some (join (codes "/") (project ∷ base ∷ []))

  unfoldable pub is_source : Options → Text → Option Bool
  unfolding extension is_source_extension
  is_source o filename = do
    ext ← extension o.repository filename
    some (is_source_extension (drop 1 ext) o)
