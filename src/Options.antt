-- ===== src/Options.antt =====
-- The global options of cpplint.py, and the functions on file extensions.
use myframe.Common.{Bool, not, Option, none, List, [], ◌∷◌, ◌++◌, map, if◌then◌else◌}
use myframe.Common.Int.{ℤ, pos}
use myframe.Text.{Text, codes, text_eq, is_one_of, has_char, split, strip}

-- _hpp_headers, _valid_extensions, _excludes, _include_order, _line_length, _root and _repository.
-- `none` stands for None. A set is a list without repetition, in the order of its iteration.
pub record Options : Type 0 where
  pub hpp_headers : List Text
  pub valid_extensions : List Text
  pub excludes : List Text
  pub include_order : Text
  pub line_length : ℤ
  pub root : Option Text
  pub repository : Option Text

abbrev pub init_options : Options
init_options = record {
  hpp_headers = [];
  valid_extensions = [];
  excludes = [];
  include_order = codes "default";
  line_length = pos 80;
  root = none;
  repository = none;
}

-- sys.exit, with the message of PrintUsage or, at help and version texts, without an error
pub data Exit : Type 0 where
  fatal : Text → Exit
  success : Exit

pub data Outcome {ℓ} (A : Type ℓ) : Type ℓ where
  returns : A → Outcome A
  exits : Exit → Outcome A

abbrev keep_if : (Text → Bool) → List Text → List Text
keep_if p [] = []
keep_if p (t ∷ ts) = if p t then t ∷ keep_if p ts else keep_if p ts

-- set(ts), a.union(b) and a.difference(b)
abbrev pub difference : List Text → List Text → List Text
difference a b = keep_if (λ t. not (is_one_of t b)) a

abbrev pub union : List Text → List Text → List Text
union a b = a ++ difference b a

abbrev pub to_set : List Text → List Text
to_set [] = []
to_set (t ∷ ts) = t ∷ keep_if (λ u. not (text_eq u t)) (to_set ts)

abbrev pub or_else : List Text → List Text → List Text
or_else [] b = b
or_else (t ∷ ts) b = t ∷ ts

-- {ext.strip() for ext in val.split(',')}
unfoldable pub comma_separated : Text → List Text
unfolding split strip text_eq
comma_separated val = to_set (map strip (split b',' val))

-- ProcessHppHeadersOption(val) and ProcessExtensionsOption(val)
unfoldable pub process_hpp_headers_option : Text → Options → Options
unfolding comma_separated
process_hpp_headers_option val o = record o { hpp_headers = comma_separated val }

unfoldable pub process_extensions_option : Text → Options → Options
unfolding comma_separated
process_extensions_option val o = record o { valid_extensions = comma_separated val }

-- ProcessIncludeOrderOption(val)
unfoldable pub process_include_order_option : Text → Options → Outcome Options
unfolding text_eq
process_include_order_option val o =
    if text_eq val (codes "default")
    then returns o
    else if text_eq val (codes "standardcfirst")
    then returns (record o { include_order = val })
    else exits (fatal (codes "Invalid includeorder value %s. Expected default|standardcfirst"))

abbrev default_header_extensions : List Text
default_header_extensions =
    codes "h" ∷ codes "hh" ∷ codes "hpp" ∷ codes "hxx" ∷ codes "h++" ∷ codes "cuh" ∷ []

abbrev default_source_extensions : List Text
default_source_extensions =
    codes "c" ∷ codes "cc" ∷ codes "cpp" ∷ codes "cxx" ∷ codes "c++" ∷ codes "cu" ∷ []

-- The header extensions by --extensions, where --headers is not given
abbrev among_valid : List Text → List Text
among_valid [] = default_header_extensions
among_valid (t ∷ ts) = keep_if (λ e. has_char e b'h') (t ∷ ts)

-- GetHeaderExtensions(), GetAllExtensions() and GetNonHeaderExtensions()
unfoldable pub get_header_extensions : Options → List Text
unfolding has_char
get_header_extensions o = or_else o.hpp_headers (among_valid o.valid_extensions)

unfoldable pub get_all_extensions : Options → List Text
unfolding get_header_extensions is_one_of
get_all_extensions o =
    union (get_header_extensions o) (or_else o.valid_extensions default_source_extensions)

unfoldable pub get_non_header_extensions : Options → List Text
unfolding get_all_extensions get_header_extensions is_one_of
get_non_header_extensions o = difference (get_all_extensions o) (get_header_extensions o)

-- IsHeaderExtension(file_extension) and _IsSourceExtension(s)
unfoldable pub is_header_extension : Text → Options → Bool
unfolding get_header_extensions is_one_of
is_header_extension file_extension o = is_one_of file_extension (get_header_extensions o)

unfoldable pub is_source_extension : Text → Options → Bool
unfolding get_non_header_extensions is_one_of
is_source_extension s o = is_one_of s (get_non_header_extensions o)
