-- ===== src/Config.antt =====
-- ProcessConfigOverrides of cpplint.py: the CPPLINT.cfg files of the directories above a file.
pub mod Keeps
pub mod Filters
use myframe.Common.{
  ℕ, zero, suc, ◌+◌, Bool, true, false, Option, none, some, List, [], ◌∷◌, ◌++◌, ◌==◌,
  if◌then◌else◌, length,
}
use myframe.Common.Int.{ℤ}
use myframe.Text.{Text, codes, text_eq, strip}
use myframe.Lint.{LintState, Console, add_filters, print_info, print_error}
use myframe.Options.{
  Options, Exit, Outcome, returns, exits, process_hpp_headers_option, process_extensions_option,
  process_include_order_option,
}
use myframe.Paths.{Os}

-- What the code calls of os, codecs and re, and int(): `none` stands for an IOError of the file, for a
-- pattern that re does not compile, and for a ValueError.
pub record Host : Type 0 where
  pub os : Os
  pub is_file : Text → Bool
  pub read_file : Text → Option (List Text)
  pub pattern_match : Text → Text → Option Bool
  pub int : Text → Option ℤ

-- The global state of the program
pub record World : Type 0 where
  pub options : Options
  pub lint : LintState
  pub console : Console

-- How a run stops early: by sys.exit, or by an exception that nothing catches
pub data Stop : Type 0 where
  exit : Exit → Stop
  raise : Text → Stop

-- What a line of a configuration file leads to: the next line, with `keep_looking` and `cfg_filters`,
-- or the end, since the file is excluded or the run stops.
pub data Next : Type 0 where
  go_on : Bool → List Text → Next
  excluded : Next
  stops : Stop → Next

-- The parts of s.partition(c) before and behind the separator
abbrev pub before : ℕ → Text → Text
before sep [] = []
before sep (c ∷ s) = if c == sep then [] else c ∷ before sep s

abbrev pub behind : ℕ → Text → Text
behind sep [] = []
behind sep (c ∷ s) = if c == sep then s else behind sep s

-- _cpplint_state.PrintError(message)
unfoldable pub print_error_in : Text → World → World
unfolding print_error
print_error_in message w =
    let (s, io) = print_error message (w.lint, w.console) in record w { lint = s; console = io }

-- _cpplint_state.PrintInfo(message); the global `_quiet` is never set.
unfoldable pub print_info_in : Text → World → World
unfolding print_info
print_info_in message w = record w { console = print_info false message w.lint w.console }

abbrev quoted : Text → Text
quoted t = 34 ∷ t ++ 34 ∷ []

unfoldable pub exclude_message : Text → Text → Text → Text → Text
exclude_message filename cfg_file base_name val =
    codes "Ignoring "
    ++ (quoted filename
        ++ (codes ": file excluded by "
            ++ (quoted cfg_file
                ++ (codes ". File path component "
                    ++ (quoted base_name
                        ++ (codes " matches pattern " ++ (quoted val ++ 10 ∷ [])))))))

abbrev with_options : World → Outcome Options → Bool → List Text → World × Next
with_options w (returns o) keep_looking cfg_filters =
    (record w { options = o }, go_on keep_looking cfg_filters)
with_options w (exits e) keep_looking cfg_filters = (w, stops (exit e))

abbrev with_line_length : World → Option ℤ → World
with_line_length w none = print_error_in (codes "Line length must be numeric.") w
with_line_length w (some n) = record w { options = record w.options { line_length = n } }

module _ (host : Host) (filename cfg_file : Text) where
  -- exclude_files, by what re.match says
  unfoldable pub on_exclude : Text → Text → Option Bool → Bool → List Text → World → World × Next
  unfolding exclude_message
  on_exclude base_name val none keep_looking cfg_filters w = (w, stops (raise val))
  on_exclude base_name val (some false) keep_looking cfg_filters w =
      (w, go_on keep_looking cfg_filters)
  on_exclude base_name val (some true) keep_looking cfg_filters w =
      if w.lint.quiet
      then (w, excluded)
      else (print_info_in (exclude_message filename cfg_file base_name val) w, excluded)

  -- An option of the file. The base name is never empty here.
  unfoldable pub config_option : Text → Text → Text → Bool → List Text → World → World × Next
  unfolding text_eq on_exclude
  config_option name val base_name keep_looking cfg_filters w =
      if text_eq name (codes "set noparent")
      then (w, go_on false cfg_filters)
      else if text_eq name (codes "filter")
      then (w, go_on keep_looking (cfg_filters ++ val ∷ []))
      else if text_eq name (codes "exclude_files")
      then on_exclude base_name val (host.pattern_match val base_name) keep_looking cfg_filters w
      else if text_eq name (codes "linelength")
      then (with_line_length w (host.int val), go_on keep_looking cfg_filters)
      else if text_eq name (codes "extensions")
      then with_options w (returns (process_extensions_option val w.options)) keep_looking
          cfg_filters
      else if text_eq name (codes "root")
      then with_options w
          (returns
            (record w.options { root = some (host.os.join_path (host.os.dirname cfg_file) val) }))
          keep_looking cfg_filters
      else if text_eq name (codes "headers")
      then with_options w (returns (process_hpp_headers_option val w.options)) keep_looking
          cfg_filters
      else if text_eq name (codes "includeorder")
      then with_options w (process_include_order_option val w.options) keep_looking cfg_filters
      else (
        print_error_in
            (codes "Invalid configuration option ("
              ++ (name ++ (codes ") in file " ++ (cfg_file ++ 10 ∷ []))))
            w,
        go_on keep_looking cfg_filters,
      )

  -- A line of the file
  unfoldable pub config_line : Text → Text → Bool → List Text → World → World × Next
  unfolding strip config_option
  config_line line base_name keep_looking cfg_filters w =
      let text = before b'#' line in
      if text_eq (strip text) []
      then (w, go_on keep_looking cfg_filters)
      else config_option (strip (before b'=' text)) (strip (behind b'=' text)) base_name
          keep_looking cfg_filters w

  -- The lines of the file, in order
  unfoldable pub config_lines : List Text → Text → Bool → List Text → World → World × Next
  unfolding config_line
  config_lines [] base_name keep_looking cfg_filters w = (w, go_on keep_looking cfg_filters)
  config_lines (line ∷ rest) base_name keep_looking cfg_filters w =
      let (w', next) = config_line line base_name keep_looking cfg_filters w in
      elim next [
        | go_on keep filters ↦ config_lines rest base_name keep filters w'
        | excluded ↦ (w', excluded)
        | stops s ↦ (w', stops s)
      ]

-- The file of a directory, if there is one
unfoldable pub config_file : Host → Text → Text → Text → Bool → List Text → World → World × Next
unfolding config_lines
config_file host filename cfg_file base_name keep_looking cfg_filters w =
    if host.is_file cfg_file
    then elim (host.read_file cfg_file) [
      | none ↦ (
        print_error_in
            (codes "Skipping config file '"
              ++ (cfg_file ++ (codes "': Can't open for reading" ++ 10 ∷ [])))
            w,
        go_on false cfg_filters,
      )
      | some lines ↦ config_lines host filename cfg_file lines base_name keep_looking cfg_filters w
    ]
    else (w, go_on keep_looking cfg_filters)

-- The file has been read: `keep_looking` decides whether the loop goes on.
abbrev pub after_file :
    (List Text → World → Option (World × Next)) → World × Next → Option (World × Next)
after_file further (w, go_on true filters) = further filters w
after_file further (w, go_on false filters) = some (w, go_on false filters)
after_file further (w, excluded) = some (w, excluded)
after_file further (w, stops stop) = some (w, stops stop)

-- At a path without a base name, the root directory, the loop ends.
abbrev pub unless_root :
    Text → Option (World × Next) → Option (World × Next) → Option (World × Next)
unless_root [] at_root further = at_root
unless_root (c ∷ s) at_root further = further

-- The loop up the directories; `none` tells that the fuel ran out.
unfoldable pub config_files : ℕ → Host → Text → Text → List Text → World → Option (World × Next)
unfolding config_file
config_files zero host filename path cfg_filters w = none
config_files (suc fuel) host filename path cfg_filters w =
    let (abs_path, base_name) = host.os.split_path path in
    let cfg_file = host.os.join_path abs_path (codes "CPPLINT.cfg") in
    unless_root base_name (some (w, go_on true cfg_filters)) (
      after_file (λ filters w'. config_files fuel host filename abs_path filters w')
        (config_file host filename cfg_file base_name true cfg_filters w))

-- for cfg_filter in reversed(cfg_filters): _AddFilters(cfg_filter), up to the first that raises
unfoldable pub apply_filters : List Text → LintState → LintState × Option Text
unfolding add_filters
apply_filters [] s = (s, none)
apply_filters (f ∷ fs) s =
    let (s', raised) = apply_filters fs s in
    let added = add_filters f s' in elim raised [ none ↦ added | some e ↦ (s', some e) ]

-- What ProcessConfigOverrides returns, or how the run stops
pub data Processed : Type 0 where
  result : Bool → Processed
  stopped : Stop → Processed

abbrev pub end_of_config : World × Next → World × Processed
end_of_config (w, excluded) = (w, result false)
end_of_config (w, stops stop) = (w, stopped stop)
end_of_config (w, go_on keep_looking cfg_filters) =
    let (s, raised) = apply_filters cfg_filters w.lint in
    (record w { lint = s }, elim raised [ none ↦ result true | some f ↦ stopped (raise f) ])

-- ProcessConfigOverrides(filename)
unfoldable pub process_config_overrides : Host → Text → World → Option (World × Processed)
unfolding config_files apply_filters
process_config_overrides host filename w =
    let path = host.os.abspath filename in
    elim (config_files (suc (length path)) host filename path [] w) [
      | none ↦ none
      | some out ↦ some (end_of_config out)
    ]
