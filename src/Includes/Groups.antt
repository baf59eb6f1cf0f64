-- ===== src/Includes/Groups.antt =====
-- The files whose #include lines draw no message from CheckNextIncludeOrder.
pub mod From
pub mod Silent
use myframe.Common.{
  ℕ, ◌≡◌, refl, Bool, true, false, ◌&&◌, none, some, List, [], ◌∷◌, ◌++◌, arith, All,
}
use myframe.Text.{text_eq}
use myframe.Includes.{
  HeaderType, c_sys_header, cpp_sys_header, other_sys_header, likely_my_header, possible_my_header,
  IncludeState, next_section, check_next_include_order,
}

-- The headers of a file, one call after another: whether every message is empty.
pub is_silent : IncludeState → List HeaderType → Bool
unfolding text_eq
is_silent s [] = true
is_silent s (h ∷ hs) =
    let (s', message) = check_next_include_order h s in text_eq message [] && is_silent s' hs

-- The same on the sections alone.
pub quiet : ℕ → List HeaderType → Bool
unfolding next_section
quiet n [] = true
quiet n (h ∷ hs) = elim (next_section h n) [ none ↦ false | some m ↦ quiet m hs ]

pub is_silent-eq-quiet :
    (hs : List HeaderType) (s : IncludeState) → is_silent s hs ≡ quiet s.section hs
unfolding is_silent quiet check_next_include_order text_eq
is_silent-eq-quiet [] s = refl
is_silent-eq-quiet (h ∷ hs) s =
    ground (arith, is_silent-eq-quiet hs (check_next_include_order h s).0)

abbrev pub is_my : HeaderType → Bool
is_my likely_my_header = true
is_my possible_my_header = true
is_my _ = false

abbrev pub is_system : HeaderType → Bool
is_system c_sys_header = true
is_system cpp_sys_header = true
is_system other_sys_header = true
is_system _ = false

-- Five groups, one behind another, each of which may be empty: the file's own headers, those of
-- C, those of C++, other system headers, and then no system header at all.
pub record InGroups (hs : List HeaderType) : Type 0 where
  pub mine : List HeaderType
  pub c : List HeaderType
  pub cpp : List HeaderType
  pub sys : List HeaderType
  pub rest : List HeaderType
  pub parts : hs ≡ mine ++ (c ++ (cpp ++ (sys ++ rest)))
  pub mine_all : All (λ h. is_my h ≡ true) mine
  pub c_all : All (λ h. h ≡ c_sys_header) c
  pub cpp_all : All (λ h. h ≡ cpp_sys_header) cpp
  pub sys_all : All (λ h. h ≡ other_sys_header) sys
  pub rest_all : All (λ h. is_system h ≡ false) rest
