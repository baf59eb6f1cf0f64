-- ===== src/Includes.antt =====
-- class _IncludeState of cpplint.py: the order of the #include lines of a file.
pub mod Order
pub mod Groups
pub mod Seen
pub mod CppHeaders
pub mod CHeaders
pub mod Classify
pub mod Check
use myframe.Common.{
  ℕ, zero, suc, ◌+◌, ◌||◌, Option, none, some, List, [], ◌∷◌, ◌++◌, ltb, leb, if◌then◌else◌,
}
use myframe.Text.{Text, codes, text_eq, is_one_of, replace, lower}

-- _C_SYS_HEADER and the constants after it
pub data HeaderType : Type 0 where
  c_sys_header cpp_sys_header other_sys_header : HeaderType
  likely_my_header possible_my_header other_header : HeaderType

-- _INITIAL_SECTION and the constants after it, which are compared
abbrev pub initial_section : ℕ
initial_section = 0

abbrev pub my_h_section : ℕ
my_h_section = 1

abbrev pub c_section : ℕ
c_section = 2

abbrev pub cpp_section : ℕ
cpp_section = 3

abbrev pub other_sys_section : ℕ
other_sys_section = 4

abbrev pub other_h_section : ℕ
other_h_section = 5

-- _TYPE_NAMES
unfoldable pub type_name : HeaderType → Text
type_name c_sys_header = codes "C system header"
type_name cpp_sys_header = codes "C++ system header"
type_name other_sys_header = codes "other system header"
type_name likely_my_header = codes "header this file implements"
type_name possible_my_header = codes "header this file may implement"
type_name other_header = codes "other header"

-- _SECTION_NAMES. The sections are the numbers up to 5.
unfoldable pub section_name : ℕ → Text
section_name zero = codes "... nothing. (This can't be an error.)"
section_name (suc zero) = codes "a header this file implements"
section_name (suc (suc zero)) = codes "C system header"
section_name (suc (suc (suc zero))) = codes "C++ system header"
section_name (suc (suc (suc (suc zero)))) = codes "other system header"
section_name _ = codes "other header"

-- `include_list` is a list of lists of headers with their line numbers, the current one last.
pub record IncludeState : Type 0 where
  pub include_list : List (List (Text × ℕ))
  pub section : ℕ
  pub last_header : Text

-- include_list[-1] = f(include_list[-1]). The list is never empty.
unfoldable pub modify_last {ℓ} : {A : Type ℓ} → (A → A) → List A → List A
modify_last f [] = []
modify_last f (x ∷ []) = f x ∷ []
modify_last f (x ∷ y ∷ xs) = x ∷ modify_last f (y ∷ xs)

-- ResetSection(directive)
unfoldable pub reset_section : Text → IncludeState → IncludeState
unfolding modify_last is_one_of
reset_section directive s = record s {
  section = initial_section;
  last_header = [];
  include_list =
      if is_one_of directive (codes "if" ∷ codes "ifdef" ∷ codes "ifndef" ∷ [])
      then s.include_list ++ [] ∷ []
      else if is_one_of directive (codes "else" ∷ codes "elif" ∷ [])
      then modify_last (λ _. []) s.include_list
      else s.include_list;
}

-- __init__
unfoldable pub init_include_state : IncludeState
unfolding reset_section
init_include_state =
    reset_section []
      (record { include_list = [] ∷ []; section = initial_section; last_header = [] })

unfoldable pub find_in_section : Text → List (Text × ℕ) → Option ℕ
unfolding text_eq
find_in_section header [] = none
find_in_section header ((h, line) ∷ rest) =
    if text_eq h header then some line else find_in_section header rest

unfoldable pub find_in_sections : Text → List (List (Text × ℕ)) → Option ℕ
unfolding find_in_section
find_in_sections header [] = none
find_in_sections header (section_list ∷ rest) =
    let later = find_in_sections header rest in
    elim (find_in_section header section_list) [ some line ↦ some line | none ↦ later ]

-- FindHeader(header), `none` for -1
unfoldable pub find_header : Text → IncludeState → Option ℕ
unfolding find_in_sections
find_header header s = find_in_sections header s.include_list

-- SetLastHeader(header_path)
unfoldable pub set_last_header : Text → IncludeState → IncludeState
set_last_header header_path s = record s { last_header = header_path }

-- include_state.include_list[-1].append((include, linenum)) of CheckIncludeLine
unfoldable pub add_include : Text → ℕ → IncludeState → IncludeState
unfolding modify_last
add_include header line s = record s {
  include_list = modify_last (λ l. l ++ (header, line) ∷ []) s.include_list;
}

-- CanonicalizeAlphabeticalOrder(header_path)
unfoldable pub canonicalize_alphabetical_order : Text → Text
unfolding replace lower
canonicalize_alphabetical_order header_path =
    lower (replace (codes "-") (codes "_") (replace (codes "-inl.h") (codes ".h") header_path))

-- The message of CheckNextIncludeOrder, which names the section before the header.
unfoldable pub order_message : HeaderType → ℕ → Text
unfolding type_name section_name
order_message h section =
    codes "Found " ++ (type_name h ++ (codes " after " ++ section_name section))

-- The section that the header leads to, `none` where it stands too late.
unfoldable pub next_section : HeaderType → ℕ → Option ℕ
next_section c_sys_header s = if leb s c_section then some c_section else none
next_section cpp_sys_header s = if leb s cpp_section then some cpp_section else none
next_section other_sys_header s = if leb s other_sys_section then some other_sys_section else none
next_section likely_my_header s =
    if leb s my_h_section then some my_h_section else some other_h_section
next_section possible_my_header s =
    if leb s my_h_section then some my_h_section else some other_h_section
next_section other_header s = some other_h_section

-- CheckNextIncludeOrder(header_type): the new state, and the message, empty if the order is right.
unfoldable pub check_next_include_order : HeaderType → IncludeState → IncludeState × Text
unfolding next_section order_message
check_next_include_order h s = elim (next_section h s.section) [
  | none ↦ (record s { last_header = [] }, order_message h s.section)
  | some n ↦ (
    record s {
      section = n;
      last_header = if ltb s.section n || ltb n s.section then [] else s.last_header;
    },
    [],
  )
]
