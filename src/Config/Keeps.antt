-- ===== src/Config/Keeps.antt =====
-- ProcessConfigOverrides of cpplint.py: what it leaves as it is while it reads files.
use myframe.Common.{
  ℕ, zero, suc, ◌≡◌, refl, ◌∙◌, Bool, true, false, Option, none, some, List, [], ◌∷◌, ◌++◌, if-both,
  some_inj,
}
use mathlib.Core.Path.{subst}
use myframe.Common.Int.{ℤ}
use myframe.Text.{Text, codes, text_eq, strip}
use myframe.Lint.{LintState, OutputFormat, junit, Console, print_error_as}
use myframe.Options.{
  Options, Outcome, returns, exits, process_extensions_option, process_hpp_headers_option,
  process_include_order_option,
}
use myframe.Config.{
  Host, World, Next, go_on, excluded, stops, before, behind, print_error_in, print_info_in,
  with_options, with_line_length, on_exclude, config_option, config_line, config_lines, config_file,
  after_file, unless_root, config_files,
}

-- The filters, the saved ones and the verbosity are left as they are.
abbrev pub KeepsFilters : LintState → LintState → Type 0
KeepsFilters s t =
    (t.filters ≡ s.filters)
    × (t.filters_backup ≡ s.filters_backup)
    × (t.verbose_level ≡ s.verbose_level)

Keeps : World → World → Type 0
Keeps w v = KeepsFilters w.lint v.lint

Keeps-trans : (w v u : World) → Keeps w v → Keeps v u → Keeps w u
unfolding Keeps
Keeps-trans w v u (a, b, c) (d, e, f) = (d ∙ a, e ∙ b, f ∙ c)

Keeps-refl : (w : World) → Keeps w w
unfolding Keeps
Keeps-refl w = (refl, refl, refl)

print_error_as-KeepsFilters :
    (f : OutputFormat) (t : Text) (s : LintState) (io : Console)
    → KeepsFilters s (print_error_as f t (s, io)).0
unfolding print_error_as
print_error_as-KeepsFilters junit t s io = (refl, refl, refl)
print_error_as-KeepsFilters _ t s io = (refl, refl, refl)

pub print_error_in-KeepsFilters :
    (t : Text) (w : World) → KeepsFilters w.lint (print_error_in t w).lint
unfolding print_error_in
print_error_in-KeepsFilters t w =
    print_error_as-KeepsFilters w.lint.output_format t w.lint w.console

print_error_in-Keeps : (t : Text) (w : World) → Keeps w (print_error_in t w)
unfolding Keeps
print_error_in-Keeps t w = print_error_in-KeepsFilters t w

KeepsIn : World → World × Next → Type 0
KeepsIn w out = Keeps w out.0

keeps : (w : World) (out : World × Next) → Keeps w out.0 → KeepsIn w out
unfolding KeepsIn
keeps w out h = h

kept : (w : World) (out : World × Next) → KeepsIn w out → Keeps w out.0
unfolding KeepsIn
kept w out h = h

with_options-Keeps :
    (w : World) (o : Outcome Options) (k : Bool) (fs : List Text)
    → Keeps w (with_options w o k fs).0
unfolding Keeps
with_options-Keeps w (returns o) k fs = (refl, refl, refl)
with_options-Keeps w (exits e) k fs = (refl, refl, refl)

with_line_length-Keeps : (w : World) (n : Option ℤ) → Keeps w (with_line_length w n)
unfolding Keeps
with_line_length-Keeps w none = print_error_in-Keeps (codes "Line length must be numeric.") w
with_line_length-Keeps w (some n) = (refl, refl, refl)

module _ (host : Host) (filename cfg_file : Text) where
  on_exclude-Keeps :
      (base_name val : Text) (o : Option Bool) (k : Bool) (fs : List Text) (w : World)
      → Keeps w (on_exclude host filename cfg_file base_name val o k fs w).0
  unfolding on_exclude print_info_in Keeps KeepsIn
  on_exclude-Keeps base_name val none k fs w = (refl, refl, refl)
  on_exclude-Keeps base_name val (some false) k fs w = (refl, refl, refl)
  on_exclude-Keeps base_name val (some true) k fs w =
      if-both (KeepsIn w) w.lint.quiet (w, excluded) _ (refl, refl, refl) (refl, refl, refl)

  unknown_option : Text → Text
  unknown_option name =
      codes "Invalid configuration option ("
      ++ (name ++ (codes ") in file " ++ (cfg_file ++ 10 ∷ [])))

  config_option-Keeps :
      (name val base_name : Text) (k : Bool) (fs : List Text) (w : World)
      → Keeps w (config_option host filename cfg_file name val base_name k fs w).0
  unfolding config_option unknown_option
  config_option-Keeps name val base_name k fs w =
      let option =
        λ (o : Outcome Options). keeps w (with_options w o k fs) (with_options-Keeps w o k fs) in
      let goes_on = λ (b : Bool) (gs : List Text). keeps w (w, go_on b gs) (Keeps-refl w) in
      kept w _ (
        if-both (KeepsIn w) (text_eq name (codes "set noparent")) _ _ (goes_on false fs) (
          if-both (KeepsIn w) (text_eq name (codes "filter")) _ _ (goes_on k (fs ++ val ∷ [])) (
            if-both (KeepsIn w) (text_eq name (codes "exclude_files")) _ _
              (keeps w _ (on_exclude-Keeps base_name val (host.pattern_match val base_name) k fs w))
              (if-both (KeepsIn w) (text_eq name (codes "linelength")) _ _
                (keeps w (with_line_length w (host.int val), go_on k fs)
                  (with_line_length-Keeps w (host.int val)))
                (if-both (KeepsIn w) (text_eq name (codes "extensions")) _ _
                  (option (returns (process_extensions_option val w.options)))
                  (if-both (KeepsIn w) (text_eq name (codes "root")) _ _
                    (option (
                      returns (record w.options {
                        root = some (host.os.join_path (host.os.dirname cfg_file) val);
                      })))
                    (if-both (KeepsIn w) (text_eq name (codes "headers")) _ _
                      (option (returns (process_hpp_headers_option val w.options)))
                      (if-both (KeepsIn w) (text_eq name (codes "includeorder")) _ _
                        (option (process_include_order_option val w.options))
                        (keeps w (print_error_in (unknown_option name) w, go_on k fs)
                          (print_error_in-Keeps (unknown_option name) w))))))))))

  config_line-Keeps :
      (line base_name : Text) (k : Bool) (fs : List Text) (w : World)
      → Keeps w (config_line host filename cfg_file line base_name k fs w).0
  unfolding config_line
  config_line-Keeps line base_name k fs w =
      let text = before b'#' line in
      kept w _ (
        if-both (KeepsIn w) (text_eq (strip text) []) _ _ (keeps w (w, go_on k fs) (Keeps-refl w)) (
          keeps w _ (
            config_option-Keeps (strip (before b'=' text)) (strip (behind b'=' text)) base_name k fs
              w)))

  config_lines-Keeps :
      (lines : List Text) (base_name : Text) (k : Bool) (fs : List Text) (w : World)
      → Keeps w (config_lines host filename cfg_file lines base_name k fs w).0
  unfolding config_lines
  config_lines-Keeps [] base_name k fs w = Keeps-refl w
  config_lines-Keeps (line ∷ rest) base_name k fs w =
      further (config_line host filename cfg_file line base_name k fs w)
        (config_line-Keeps line base_name k fs w)
        (λ v keep filters. config_lines-Keeps rest base_name keep filters v)
    where
      further :
          (out : World × Next)
          → Keeps w out.0
          → ((v : World) (keep : Bool) (filters : List Text)
              → Keeps v (config_lines host filename cfg_file rest base_name keep filters v).0)
          → Keeps w
              (elim out.1 as (λ _. World × Next) [
                | go_on keep filters ↦
                    config_lines host filename cfg_file rest base_name keep filters out.0
                | excluded ↦ (out.0, excluded)
                | stops s ↦ (out.0, stops s)
              ]).0
      further (v, go_on keep filters) h later = Keeps-trans w v _ h (later v keep filters)
      further (v, excluded) h later = h
      further (v, stops s) h later = h

config_file-Keeps :
    (host : Host) (filename cfg_file base_name : Text) (k : Bool) (fs : List Text) (w : World)
    → Keeps w (config_file host filename cfg_file base_name k fs w).0
unfolding config_file
config_file-Keeps host filename cfg_file base_name k fs w = kept w _ (
    if-both (KeepsIn w) (host.is_file cfg_file) _ _ (read (host.read_file cfg_file))
      (keeps w (w, go_on k fs) (Keeps-refl w)))
  where
    read :
        (o : Option (List Text))
        → KeepsIn w (elim o as (λ _. World × Next) [
          | none ↦ (
            print_error_in
                (codes "Skipping config file '"
                  ++ (cfg_file ++ (codes "': Can't open for reading" ++ 10 ∷ [])))
                w,
            go_on false fs,
          )
          | some lines ↦ config_lines host filename cfg_file lines base_name k fs w
        ])
    read none = keeps w _ (print_error_in-Keeps _ w)
    read (some lines) = keeps w _ (config_lines-Keeps host filename cfg_file lines base_name k fs w)

pub config_files-KeepsFilters :
    (fuel : ℕ) (host : Host) (filename path : Text) (fs : List Text) (w : World)
    (out : World × Next)
    → config_files fuel host filename path fs w ≡ some out
    → KeepsFilters w.lint out.0.lint
unfolding config_files Keeps
config_files-KeepsFilters zero host filename path fs w out e = cc
config_files-KeepsFilters (suc fuel) host filename path fs w out e =
    let (dir, base_name) = host.os.split_path path in
    let cfg_file = host.os.join_path dir (codes "CPPLINT.cfg") in
    further base_name (config_file host filename cfg_file base_name true fs w)
      (config_file-Keeps host filename cfg_file base_name true fs w) e
      (λ v filters e'. config_files-KeepsFilters fuel host filename dir filters v out e')
  where
    kept_by :
        (o : World × Next)
        → some o ≡ some out
        → KeepsFilters w.lint o.0.lint
        → KeepsFilters w.lint out.0.lint
    kept_by o e h = subst (λ (x : World × Next). KeepsFilters w.lint x.0.lint) (some_inj o out e) h

    further :
        (base : Text) (here : World × Next)
        → KeepsFilters w.lint here.0.lint
        → unless_root base (some (w, go_on true fs)) (
            after_file
              (λ filters v. config_files fuel host filename (host.os.split_path path).0 filters v)
              here)
          ≡ some out
        → ((v : World) (filters : List Text)
            → config_files fuel host filename (host.os.split_path path).0 filters v ≡ some out
            → KeepsFilters v.lint out.0.lint)
        → KeepsFilters w.lint out.0.lint
    further [] here h e later = kept_by (w, go_on true fs) e (refl, refl, refl)
    further (c ∷ s) (v, go_on true filters) h e later = Keeps-trans w v out.0 h (later v filters e)
    further (c ∷ s) (v, go_on false filters) h e later = kept_by (v, go_on false filters) e h
    further (c ∷ s) (v, excluded) h e later = kept_by (v, excluded) e h
    further (c ∷ s) (v, stops stop) h e later = kept_by (v, stops stop) e h
