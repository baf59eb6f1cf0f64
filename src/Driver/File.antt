-- ===== src/Driver/File.antt =====
-- ProcessFile and main of cpplint.py.
use myframe.Common.{
  ℕ, suc, true, false, not, ◌&&◌, ◌||◌, Option, none, some, List, [], ◌∷◌, ◌++◌, ◌==◌,
  if◌then◌else◌, ◌>>=◌,
}
use myframe.Text.{Text, codes, text_eq, has_char, is_one_of, ends_with, split, join}
use myframe.Categories.{Diagnostic}
use myframe.Suppress.{Suppressions}
use myframe.Lint.{set_verbose_level, backup_filters, restore_filters}
use myframe.Options.{get_all_extensions}
use myframe.Config.{
  Host, World, Stop, Processed, result, stopped, print_error_in, print_info_in,
  process_config_overrides,
}
use myframe.Driver.{Checks, Linting, report_all, process_file_data}

-- What the code reads: standard input, and files, where `none` is an IOError
pub record Input : Type 0 where
  pub stdin : Text
  pub read_text : Text → Option Text

-- s.rstrip('\r')
abbrev pub without_cr : Text → Text
without_cr [] = []
without_cr (c ∷ s) = elim (without_cr s) [ [] ↦ if c == 13 then [] else c ∷ [] | d ∷ t ↦ c ∷ d ∷ t ]

pub record Lines : Type 0 where
  pub lines : List Text
  pub lf_lines : List ℕ
  pub crlf_lines : List ℕ

-- The loop over the lines but the last, from number `linenum` on: what ends in a '\r' loses it.
unfoldable pub strip_lines : ℕ → List Text → Lines
unfolding ends_with
strip_lines linenum [] = record { lines = []; lf_lines = []; crlf_lines = [] }
strip_lines linenum (last ∷ []) = record { lines = last ∷ []; lf_lines = []; crlf_lines = [] }
strip_lines linenum (line ∷ next ∷ rest) =
    let r = strip_lines (suc linenum) (next ∷ rest) in
    if ends_with line (13 ∷ [])
    then record r { lines = without_cr line ∷ r.lines; crlf_lines = linenum ∷ r.crlf_lines }
    else record r { lines = line ∷ r.lines; lf_lines = linenum ∷ r.lf_lines }

-- filename[filename.rfind('.') + 1:]
abbrev pub extension_of : Text → Text
extension_of [] = []
extension_of (c ∷ s) = if has_char (c ∷ s) b'.' then extension_of s else c ∷ s

abbrev pub cr_error : ℕ → Diagnostic
cr_error linenum = record {
  line = linenum;
  category = codes "whitespace/newline";
  confidence = 1;
  message = codes "Unexpected \\r (^M) found; better to use only \\n";
}

abbrev cr_errors : List ℕ → List Diagnostic
cr_errors [] = []
cr_errors (n ∷ ns) = cr_error n ∷ cr_errors ns

-- The errors on mixed ends of lines
abbrev pub mixed_ends : Lines → List Diagnostic
mixed_ends r = elim r.lf_lines [ [] ↦ [] | n ∷ ns ↦ cr_errors r.crlf_lines ]

-- The state between files: the global state and the suppressions of the last file
pub record Program : Type 0 where
  pub world : World
  pub suppressions : Suppressions

abbrev pub with_linting : Program → Linting → Program
with_linting p st = record p {
  world = record p.world { lint = st.lint; console = st.console };
  suppressions = st.suppressions;
}

-- How ProcessFile ends
pub data Ended : Type 0 where
  returned : Program → Ended
  stops : Program → Stop → Ended

module _ (checks : Checks) (input : Input) (host : Host) where
  abbrev pub contents : Text → Option Text
  contents filename =
      if text_eq filename (codes "-") then some input.stdin else input.read_text filename

  -- The checks of a file that was read, unless its extension is not a valid one
  unfoldable pub check_file : Text → Lines → Program → Option Program
  check_file filename r p =
      let o = p.world.options in
      let extension = extension_of filename in
      let checked = (do
        st ←
            process_file_data checks o filename extension r.lines p.suppressions p.world.lint
              p.world.console
        st' ← report_all filename (mixed_ends r) st
        some (with_linting p st')) in
      if not (text_eq filename (codes "-")) && not (is_one_of extension (get_all_extensions o))
      then some (record p {
        world =
            print_error_in
              (codes "Ignoring "
                ++ (filename
                    ++ (codes "; not a valid file name ("
                        ++ (join (codes ", ") (get_all_extensions o) ++ codes ")" ++ 10 ∷ []))))
              p.world;
      })
      else checked

  abbrev pub restored : Program → Program
  restored p = record p { world = record p.world { lint = restore_filters p.world.lint } }

  -- With --quiet, a file without new errors is not mentioned.
  abbrev pub done_processing : Text → ℕ → Program → Program
  done_processing filename old_errors p =
      if not p.world.lint.quiet || not (old_errors == p.world.lint.error_count)
      then record p {
        world = print_info_in (codes "Done processing " ++ (filename ++ 10 ∷ [])) p.world;
      }
      else p

  -- Behind the configuration files
  unfoldable pub lint_file : Text → ℕ → Program → Option Program
  lint_file filename old_errors p = elim (contents filename) [
    | none ↦ some (
        restored (record p {
          world =
              print_error_in
                (codes "Skipping input '"
                  ++ (filename ++ (codes "': Can't open for reading" ++ 10 ∷ [])))
                p.world;
        }))
    | some text ↦
        (check_file filename (strip_lines 1 (split 10 text)) p >>= λ p'.
        some (restored (done_processing filename old_errors p')))
  ]

  -- `none` stands for an assertion that fails and for a path that never comes to a root.
  abbrev pub behind_config : Text → ℕ → Program → Option (World × Processed) → Option Ended
  behind_config filename old_errors p none = none
  behind_config filename old_errors p (some (w, stopped s)) =
      some (stops (record p { world = w }) s)
  behind_config filename old_errors p (some (w, result false)) =
      some (returned (restored (record p { world = w })))
  behind_config filename old_errors p (some (w, result true)) =
      (lint_file filename old_errors (record p { world = w }) >>= λ p'. some (returned p'))

  -- ProcessFile(filename, vlevel)
  unfoldable pub process_file : Text → ℕ → Program → Option Ended
  process_file filename vlevel p =
      let lint = backup_filters (set_verbose_level vlevel p.world.lint).0 in
      let w = record p.world { lint = lint } in
      behind_config filename lint.error_count (record p { world = w })
        (process_config_overrides host filename w)

  -- The loop of main over the files
  unfoldable pub process_files : List Text → Program → Option Ended
  process_files [] p = some (returned p)
  process_files (filename ∷ rest) p =
      (process_file filename p.world.lint.verbose_level p >>= λ ended. elim ended [
        | returned p' ↦ process_files rest p'
        | stops p' s ↦ some (stops p' s)
      ])
