-- ===== src/Includes/Classify.antt =====
-- _DropCommonSuffixes and _ClassifyInclude of cpplint.py.
use myframe.Common.{
  ◌-◌, Bool, false, not, ◌&&◌, ◌||◌, Option, some, List, [], ◌∷◌, ◌++◌, ltb, if◌then◌else◌, length,
  take, get_or, map, ◌>>=◌,
}
use myframe.Text.{Text, codes, text_eq, is_one_of, ends_with, replace}
use myframe.Regex.{Regex, line_start, star, ◌&◌, Found, match_pattern, contains}
use myframe.Regex.Classes.{char, literal, none_of, dot, plus, alts}
use myframe.Options.{Options, get_header_extensions, get_non_header_extensions}
use myframe.Paths.{Os, repository_name, slashes}
use myframe.Includes.{
  HeaderType, c_sys_header, cpp_sys_header, other_sys_header, likely_my_header, possible_my_header,
  other_header,
}
use myframe.Includes.CppHeaders.{cpp_headers}
use myframe.Includes.CHeaders.{c_headers, c_standard_header_folders}

-- _test_suffixes, without the underscore that lstrip('_') removes
abbrev test_suffixes : List Text
test_suffixes = codes "test" ∷ codes "regtest" ∷ codes "unittest" ∷ []

abbrev inner_suffixes : List Text
inner_suffixes = codes "inl" ∷ codes "imp" ∷ codes "internal" ∷ []

-- '%s.%s' over the product of the stems and the extensions
abbrev with_extensions : List Text → List Text → List Text
with_extensions [] extensions = []
with_extensions (stem ∷ stems) extensions =
    map (λ ext. stem ++ (b'.' ∷ ext)) extensions ++ with_extensions stems extensions

unfoldable pub common_suffixes : Options → List Text
unfolding get_header_extensions get_non_header_extensions
common_suffixes o =
    with_extensions test_suffixes (get_non_header_extensions o)
    ++ with_extensions inner_suffixes (get_header_extensions o)

-- The file name ends with the suffix, behind a `-` or a `_`.
abbrev has_suffix : Text → Text → Bool
has_suffix filename suffix =
    ends_with filename suffix
    && ltb (length suffix) (length filename)
    && is_one_of (get_or filename (length filename - length suffix - 1) 0 ∷ [])
        (codes "-" ∷ codes "_" ∷ [])

unfoldable pub drop_suffix : Os → Text → List Text → Text
unfolding ends_with is_one_of
drop_suffix os filename [] = (os.splitext filename).0
drop_suffix os filename (suffix ∷ suffixes) =
    let further = drop_suffix os filename suffixes in
    if has_suffix filename suffix
    then take (length filename - length suffix - 1) filename
    else further

-- _DropCommonSuffixes(filename)
unfoldable pub drop_common_suffixes : Os → Options → Text → Text
unfolding drop_suffix common_suffixes
drop_common_suffixes os o filename = drop_suffix os filename (common_suffixes o)

-- `(?:%s)\/.*\.h`, of the folders
unfoldable pub folder_pattern : Regex
unfolding c_standard_header_folders
folder_pattern =
    alts (map literal c_standard_header_folders) & char b'/' & star dot & char b'.' & char b'h'

-- `^[^-_.]+`, _RE_FIRST_COMPONENT
unfoldable pub first_component_pattern : Regex
first_component_pattern = line_start & plus (none_of (codes "-_."))

abbrev cpp_extensions : List Text
cpp_extensions = codes ".hh" ∷ codes ".hpp" ∷ codes ".hxx" ∷ codes ".h++" ∷ []

abbrev is_std_c_header : Options → Text → Bool
is_std_c_header o include =
    text_eq o.include_order (codes "default")
    || is_one_of include c_headers
    || contains folder_pattern include

abbrev same_match : Option Found → Option Found → Bool
same_match (some m) (some n) = text_eq m.text n.text
same_match _ _ = false

-- A header that is no system header, by the directories and the base names
unfoldable pub classify_by_names : Os → (Text × Text) → (Text × Text) → HeaderType
unfolding text_eq replace first_component_pattern
classify_by_names os (target_dir, target_base) (include_dir, include_base) =
    let target_dir_pub = slashes (os.normpath (target_dir ++ codes "/../public")) in
    if text_eq target_base include_base
      && (text_eq include_dir target_dir || text_eq include_dir target_dir_pub)
    then likely_my_header
    else if same_match (match_pattern first_component_pattern target_base)
        (match_pattern first_component_pattern include_base)
    then possible_my_header
    else other_header

-- _ClassifyInclude(fileinfo, include, used_angle_brackets, include_order), where `none` stands for a
-- search of the repository that does not end
unfoldable pub classify_include : Os → Options → Text → Text → Bool → Option HeaderType
unfolding cpp_headers c_headers is_one_of text_eq folder_pattern repository_name
    drop_common_suffixes classify_by_names
classify_include os o filename include used_angle_brackets =
    let is_system = used_angle_brackets && not (is_one_of (os.splitext include).1 cpp_extensions) in
    let by_names =
      (repository_name os o.repository filename >>= λ name. some (
        classify_by_names os (os.split_path (drop_common_suffixes os o name))
          (os.split_path (drop_common_suffixes os o include)))) in
    if is_system
    then some (
        if is_one_of include cpp_headers
        then cpp_sys_header
        else if is_std_c_header o include
        then c_sys_header
        else other_sys_header)
    else by_names
