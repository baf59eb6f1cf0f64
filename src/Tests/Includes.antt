-- ===== src/Tests/Includes.antt =====
-- Includes.antt on concrete headers.
use myframe.Common.{ℕ, ◌≡◌, ◌≢◌, ◌≤◌, ◌⊎◌, refl, Option, some, List, [], ◌∷◌, arith}
use myframe.Text.{Text, codes}
use myframe.Includes.{
  IncludeState, HeaderType, c_sys_header, cpp_sys_header, likely_my_header, other_header,
  init_include_state, reset_section, add_include, find_header, check_next_include_order,
  canonicalize_alphabetical_order,
}
use myframe.Includes.Order.{IsValid, check_next_include_order_lem}
use myframe.Includes.Seen.{find_header-next_branch, includes, end_if, read_branch}

-- A state in the C++ section.
abbrev in_cpp : IncludeState
in_cpp = record {
  include_list = ((codes "vector", 3) ∷ []) ∷ [];
  section = 3;
  last_header = codes "vector";
}

c_after_cpp :
    check_next_include_order c_sys_header in_cpp
    ≡ (record in_cpp { last_header = [] }, codes "Found C system header after C++ system header")
unfolding check_next_include_order
c_after_cpp = refl

canonical : canonicalize_alphabetical_order (codes "Foo-bar-inl.h") ≡ codes "foo_bar.h"
unfolding canonicalize_alphabetical_order
canonical = refl

found_first :
    find_header
      (codes "a.h")
      (add_include (codes "a.h") 9 (add_include (codes "a.h") 4 init_include_state))
    ≡ some 4
unfolding find_header add_include init_include_state
found_first = refl

in_cpp-IsValid : IsValid in_cpp
in_cpp-IsValid = record { section_le = omega arith; listed = λ e. cc }

check_next_include_order_lem_example :
    let (s', message) = check_next_include_order c_sys_header in_cpp in
    (3 ≤ s'.section)
    × (s'.section ≤ 5)
    × (s'.include_list ≡ in_cpp.include_list)
    × (message ≢ [] → s'.section ≡ 3)
    × ((message ≢ []) ⊎ (s'.section ≢ 3) → s'.last_header ≡ [])
    × (message ≡ [] → s'.section ≡ 3 → s'.last_header ≡ codes "vector")
check_next_include_order_lem_example =
    check_next_include_order_lem c_sys_header in_cpp in_cpp-IsValid

abbrev headers : List HeaderType
headers = likely_my_header ∷ c_sys_header ∷ cpp_sys_header ∷ other_header ∷ []

abbrev second : Option ℕ
second = find_header (codes "a.h") (add_include (codes "a.h") 9 in_cpp)

-- `b.h` was included in the branch of an #ifdef, before an inner #if.
abbrev in_branch : IncludeState
in_branch = add_include (codes "b.h") 7 (reset_section (codes "ifdef") in_cpp)

find_header-next_branch_example :
    find_header (codes "b.h") (
      reset_section (codes "else") (
        read_branch
          (includes (codes "c.h") 9 ∷ end_if ∷ includes (codes "d.h") 11 ∷ [])
          (reset_section (codes "if") in_branch)))
    ≡ find_header (codes "b.h") in_branch
unfolding myframe.Text.is_one_of
find_header-next_branch_example =
    find_header-next_branch (codes "b.h") (codes "if") (codes "else")
      (includes (codes "c.h") 9 ∷ end_if ∷ includes (codes "d.h") 11 ∷ []) in_branch refl refl

-- It counts in the #else of the #ifdef.
still_included : find_header (codes "b.h") in_branch ≡ some 7
unfolding find_header myframe.Includes.find_in_sections myframe.Includes.find_in_section add_include
    reset_section
still_included = refl
