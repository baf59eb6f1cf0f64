-- ===== src/Arguments.antt =====
-- ParseArguments of cpplint.py: the command line and the list of the files to lint.
pub mod Below
pub mod Excludes
use myframe.Common.{
  ℕ, ◌+◌, Bool, true, false, not, ◌||◌, Option, none, some, List, [], ◌∷◌, ◌++◌, ◌==◌,
  if◌then◌else◌, length, drop, any,
}
use myframe.Common.Int.{ℤ}
use myframe.Text.{Text, codes, text_eq, text_lt, starts_with, is_one_of}
use myframe.Lint.{
  LintState, OutputFormat, emacs, eclipse, vs7, junit, sed, gsed, Counting, total, toplevel,
  detailed, set_output_format, set_quiet, set_verbose_level, set_filters, set_counting_style,
}
use myframe.Options.{
  Options, fatal, success, Outcome, returns, exits, to_set, union, get_all_extensions,
  process_hpp_headers_option, process_extensions_option, process_include_order_option,
}
use myframe.Config.{Host, World, Stop, exit, raise}

-- What the code calls of getopt, glob and os besides. `none` stands for a GetoptError, and for the
-- ValueError of int() on a verbosity, which is a number from 0 on.
pub record Shell : Type 0 where
  pub host : Host
  pub getopt : List Text → Option (List (Text × Text) × List Text)
  pub verbosity_of : Text → Option ℕ
  pub glob : Text → List Text
  pub is_dir : Text → Bool
  pub walk : Text → List (Text × List Text)
  pub sep : ℕ

-- The local variables of the loop over the options
pub record Settings : Type 0 where
  pub verbosity : ℕ
  pub output_format : OutputFormat
  pub filters : Text
  pub quiet : Bool
  pub counting_style : Counting
  pub recursive : Bool

-- A step that may stop the run
pub data Try {ℓ} (A : Type ℓ) : Type ℓ where
  ok : A → Try A
  stop : Stop → Try A

unfoldable pub output_format_of : Text → Option OutputFormat
unfolding text_eq
output_format_of val =
    if text_eq val (codes "emacs")
    then some emacs
    else if text_eq val (codes "vs7")
    then some vs7
    else if text_eq val (codes "eclipse")
    then some eclipse
    else if text_eq val (codes "junit")
    then some junit
    else if text_eq val (codes "sed")
    then some sed
    else if text_eq val (codes "gsed")
    then some gsed
    else none

unfoldable pub counting_of : Text → Option Counting
unfolding text_eq
counting_of val =
    if text_eq val (codes "total")
    then some total
    else if text_eq val (codes "toplevel")
    then some toplevel
    else if text_eq val (codes "detailed")
    then some detailed
    else none

abbrev usage : Text → Try (Settings × Options)
usage message = stop (exit (fatal message))

abbrev set_output : Option OutputFormat → Settings → Options → Try (Settings × Options)
set_output none g o =
    usage (codes "The only allowed output formats are emacs, vs7, eclipse sed, gsed and junit.")
set_output (some f) g o = ok (record g { output_format = f }, o)

abbrev set_verbosity : Text → Option ℕ → Settings → Options → Try (Settings × Options)
set_verbosity val none g o = stop (raise val)
set_verbosity val (some n) g o = ok (record g { verbosity = n }, o)

-- An empty filter prints the categories and exits.
abbrev set_filter : Text → Settings → Options → Try (Settings × Options)
set_filter [] g o = stop (exit success)
set_filter (c ∷ s) g o = ok (record g { filters = c ∷ s }, o)

abbrev set_counting : Option Counting → Settings → Options → Try (Settings × Options)
set_counting none g o = usage (codes "Valid counting options are total, toplevel, and detailed")
set_counting (some c) g o = ok (record g { counting_style = c }, o)

abbrev set_line_length : Option ℤ → Settings → Options → Try (Settings × Options)
set_line_length none g o = usage (codes "Line length must be digits.")
set_line_length (some n) g o = ok (g, record o { line_length = n })

abbrev set_options : Outcome Options → Settings → Try (Settings × Options)
set_options (returns o) g = ok (g, o)
set_options (exits e) g = stop (exit e)

-- One option of the loop
unfoldable pub on_option : Shell → Text → Text → Settings → Options → Try (Settings × Options)
unfolding text_eq output_format_of counting_of
on_option shell opt val g o =
    if text_eq opt (codes "--help") || text_eq opt (codes "--version")
    then stop (exit success)
    else if text_eq opt (codes "--output")
    then set_output (output_format_of val) g o
    else if text_eq opt (codes "--quiet")
    then ok (record g { quiet = true }, o)
    else if text_eq opt (codes "--verbose") || text_eq opt (codes "--v")
    then set_verbosity val (shell.verbosity_of val) g o
    else if text_eq opt (codes "--filter")
    then set_filter val g o
    else if text_eq opt (codes "--counting")
    then set_counting (counting_of val) g o
    else if text_eq opt (codes "--root")
    then ok (g, record o { root = some val })
    else if text_eq opt (codes "--repository")
    then ok (g, record o { repository = some val })
    else if text_eq opt (codes "--linelength")
    then set_line_length (shell.host.int val) g o
    else if text_eq opt (codes "--exclude")
    then ok (g, record o { excludes = union o.excludes (to_set (shell.glob val)) })
    else if text_eq opt (codes "--extensions")
    then ok (g, process_extensions_option val o)
    else if text_eq opt (codes "--headers")
    then ok (g, process_hpp_headers_option val o)
    else if text_eq opt (codes "--recursive")
    then ok (record g { recursive = true }, o)
    else if text_eq opt (codes "--includeorder")
    then set_options (process_include_order_option val o) g
    else ok (g, o)

unfoldable pub on_options :
    Shell → List (Text × Text) → Settings → Options → Try (Settings × Options)
unfolding on_option
on_options shell [] g o = ok (g, o)
on_options shell ((opt, val) ∷ rest) g o = elim (on_option shell opt val g o) [
  | ok (g', o') ↦ on_options shell rest g' o'
  | stop s ↦ stop s
]

-- s.lstrip(sep)
abbrev pub without_separators : ℕ → Text → Text
without_separators sep [] = []
without_separators sep (c ∷ s) =
    let rest = without_separators sep s in if c == sep then rest else c ∷ s

-- _IsParentOrSame(parent, child)
unfoldable pub is_parent_or_same : Shell → Text → Text → Bool
unfolding text_eq
is_parent_or_same shell parent child =
    let os = shell.host.os in
    let parent' = os.normpath parent in
    let child' = os.normpath child in
    let prefix = os.commonprefix parent' child' in
    let suffix = without_separators shell.sep (drop (length prefix) child') in
    if text_eq parent' child'
    then true
    else if not (text_eq prefix parent')
    then false
    else text_eq child' (os.join_path prefix suffix)

abbrev pub keep_if : (Text → Bool) → List Text → List Text
keep_if p [] = []
keep_if p (t ∷ ts) = if p t then t ∷ keep_if p ts else keep_if p ts

-- A file is left out if it is, or is below, what --exclude names.
abbrev pub is_excluded : Shell → Options → Text → Bool
is_excluded shell o f =
    let os = shell.host.os in
    any (λ e. is_parent_or_same shell (os.abspath e) (os.abspath f)) o.excludes

-- _FilterExcludedFiles(fnames)
unfoldable pub filter_excluded_files : Shell → Options → List Text → List Text
unfolding is_parent_or_same
filter_excluded_files shell o fnames = keep_if (λ f. not (is_excluded shell o f)) fnames

-- The files below a directory, without a leading `./`
abbrev files_of_root : Shell → Text → List Text → List Text
files_of_root shell root [] = []
files_of_root shell root (loopfile ∷ files) =
    let fullname = shell.host.os.join_path root loopfile in
    (if starts_with fullname (b'.' ∷ shell.sep ∷ []) then drop 2 fullname else fullname)
    ∷ files_of_root shell root files

abbrev files_of_roots : Shell → List (Text × List Text) → List Text
files_of_roots shell [] = []
files_of_roots shell ((root, files) ∷ rest) =
    files_of_root shell root files ++ files_of_roots shell rest

abbrev expanded : Shell → List Text → List Text
expanded shell [] = []
expanded shell (filename ∷ rest) =
    (if shell.is_dir filename then files_of_roots shell (shell.walk filename) else filename ∷ [])
    ++ expanded shell rest

-- _ExpandDirectories(filenames)
unfoldable pub expand_directories : Shell → Options → List Text → List Text
unfolding starts_with is_one_of get_all_extensions text_eq
expand_directories shell o filenames =
    keep_if (λ f. is_one_of (drop 1 (shell.host.os.splitext f).1) (get_all_extensions o))
      (to_set (expanded shell filenames))

-- filenames.sort()
abbrev pub insert : Text → List Text → List Text
insert t [] = t ∷ []
insert t (u ∷ us) = if text_lt u t then u ∷ insert t us else t ∷ u ∷ us

unfoldable pub sort : List Text → List Text
unfolding text_lt
sort [] = []
sort (t ∷ ts) = insert t (sort ts)

-- The files, of the names on the command line
unfoldable pub files_to_lint : Shell → Settings → Options → List Text → List Text
unfolding expand_directories filter_excluded_files
files_to_lint shell g o filenames =
    let names = if g.recursive then expand_directories shell o filenames else filenames in
    elim o.excludes [ [] ↦ names | e ∷ es ↦ filter_excluded_files shell o names ]

-- The calls at the end, of which _SetFilters may raise
unfoldable pub apply_settings : Settings → LintState → LintState × Option Text
unfolding set_output_format set_quiet set_verbose_level set_filters set_counting_style
apply_settings g s =
    let s1 =
      (set_verbose_level g.verbosity
        (set_quiet g.quiet (set_output_format g.output_format s)).0).0 in
    let (s2, raised) = set_filters g.filters s1 in
    elim raised [ none ↦ (set_counting_style g.counting_style s2, none) | some f ↦ (s2, some f) ]

-- The settings before the loop. The counting style '' counts as `total` does.
abbrev pub init_settings : LintState → Settings
init_settings s = record {
  verbosity = s.verbose_level;
  output_format = s.output_format;
  filters = [];
  quiet = s.quiet;
  counting_style = total;
  recursive = false;
}

-- Behind the loop, with the names on the command line
unfoldable pub finish : Shell → List Text → Settings → Options → World → World × Try (List Text)
unfolding files_to_lint sort apply_settings
finish shell [] g o w =
    (record w { options = o }, stop (exit (fatal (codes "No files were specified."))))
finish shell (name ∷ names) g o w =
    let files = files_to_lint shell g o (name ∷ names) in
    let (s, raised) = apply_settings g w.lint in
    (
      record w { options = o; lint = s },
      elim raised [ none ↦ ok (sort files) | some f ↦ stop (raise f) ],
    )

-- ParseArguments(args). Where the run stops in the loop, nothing reads the state any more.
unfoldable pub parse_arguments : Shell → List Text → World → World × Try (List Text)
unfolding on_options finish
parse_arguments shell args w = elim (shell.getopt args) [
  | none ↦ (w, stop (exit (fatal (codes "Invalid arguments."))))
  | some (opts, filenames) ↦ elim (on_options shell opts (init_settings w.lint) w.options) [
    | ok (g, o) ↦ finish shell filenames g o w
    | stop s ↦ (w, stop s)
  ]
]
