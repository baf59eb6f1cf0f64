-- ===== src/Includes/Groups/From.antt =====
-- The groups that are left from a section on.
use myframe.Common.{
  ℕ, ◌≤◌, ◌<◌, ◌≡◌, refl, ap, ◌∙◌, true, false, List, [], ◌∷◌, ◌++◌, arith, leb, inl, inr,
  Bool-cases,
}
use mathlib.Core.Path.{ap₂}
use myframe.Includes.{
  HeaderType, c_sys_header, cpp_sys_header, other_sys_header, likely_my_header, possible_my_header,
  other_header, next_section,
}
use myframe.Includes.Groups.{quiet, is_my, is_system, InGroups}

-- From a later section the groups before it are empty.
pub record From (n : ℕ) (hs : List HeaderType) : Type 0 where
  pub groups : InGroups hs
  pub no_mine : 1 < n → groups.mine ≡ []
  pub no_c : 2 < n → groups.c ≡ []
  pub no_cpp : 3 < n → groups.cpp ≡ []
  pub no_sys : 4 < n → groups.sys ≡ []

-- One more header in front, by the group that it belongs to.
module _ (hs : List HeaderType) (n : ℕ) where
  add_mine : (h : HeaderType) → is_my h ≡ true → n ≤ 1 → From 1 hs → From n (h ∷ hs)
  add_mine h my le f =
      let g = f.groups in
      record {
        groups = record {
          mine = h ∷ g.mine;
          c = g.c;
          cpp = g.cpp;
          sys = g.sys;
          rest = g.rest;
          parts = ap (λ t. h ∷ t) g.parts;
          mine_all = (my, g.mine_all);
          c_all = g.c_all;
          cpp_all = g.cpp_all;
          sys_all = g.sys_all;
          rest_all = g.rest_all;
        };
        no_mine = λ b. absurd (omega arith);
        no_c = λ b. absurd (omega arith);
        no_cpp = λ b. absurd (omega arith);
        no_sys = λ b. absurd (omega arith);
      }

  add_c : n ≤ 2 → From 2 hs → From n (c_sys_header ∷ hs)
  add_c le f =
      let g = f.groups in
      record {
        groups = record {
          mine = [];
          c = c_sys_header ∷ g.c;
          cpp = g.cpp;
          sys = g.sys;
          rest = g.rest;
          parts =
              ap (λ t. c_sys_header ∷ t)
                (g.parts
                  ∙ ap (λ m. m ++ (g.c ++ (g.cpp ++ (g.sys ++ g.rest)))) (f.no_mine (omega arith)));
          mine_all = tt;
          c_all = (refl, g.c_all);
          cpp_all = g.cpp_all;
          sys_all = g.sys_all;
          rest_all = g.rest_all;
        };
        no_mine = λ b. refl;
        no_c = λ b. absurd (omega arith);
        no_cpp = λ b. absurd (omega arith);
        no_sys = λ b. absurd (omega arith);
      }

  add_cpp : n ≤ 3 → From 3 hs → From n (cpp_sys_header ∷ hs)
  add_cpp le f =
      let g = f.groups in
      record {
        groups = record {
          mine = [];
          c = [];
          cpp = cpp_sys_header ∷ g.cpp;
          sys = g.sys;
          rest = g.rest;
          parts =
              ap (λ t. cpp_sys_header ∷ t)
                (g.parts
                  ∙ ap₂ (λ m c. m ++ (c ++ (g.cpp ++ (g.sys ++ g.rest)))) (f.no_mine (omega arith))
                      (f.no_c (omega arith)));
          mine_all = tt;
          c_all = tt;
          cpp_all = (refl, g.cpp_all);
          sys_all = g.sys_all;
          rest_all = g.rest_all;
        };
        no_mine = λ b. refl;
        no_c = λ b. refl;
        no_cpp = λ b. absurd (omega arith);
        no_sys = λ b. absurd (omega arith);
      }

  add_sys : n ≤ 4 → From 4 hs → From n (other_sys_header ∷ hs)
  add_sys le f =
      let g = f.groups in
      record {
        groups = record {
          mine = [];
          c = [];
          cpp = [];
          sys = other_sys_header ∷ g.sys;
          rest = g.rest;
          parts =
              ap (λ t. other_sys_header ∷ t)
                (g.parts
                  ∙ (ap₂ (λ m c. m ++ (c ++ (g.cpp ++ (g.sys ++ g.rest)))) (f.no_mine (omega arith))
                        (f.no_c (omega arith))
                      ∙ ap (λ p. p ++ (g.sys ++ g.rest)) (f.no_cpp (omega arith))));
          mine_all = tt;
          c_all = tt;
          cpp_all = tt;
          sys_all = (refl, g.sys_all);
          rest_all = g.rest_all;
        };
        no_mine = λ b. refl;
        no_c = λ b. refl;
        no_cpp = λ b. refl;
        no_sys = λ b. absurd (omega arith);
      }

  add_rest : (h : HeaderType) → is_system h ≡ false → From 5 hs → From n (h ∷ hs)
  add_rest h plain f =
      let g = f.groups in
      record {
        groups = record {
          mine = [];
          c = [];
          cpp = [];
          sys = [];
          rest = h ∷ g.rest;
          parts =
              ap (λ t. h ∷ t)
                (g.parts
                  ∙ (ap₂ (λ m c. m ++ (c ++ (g.cpp ++ (g.sys ++ g.rest)))) (f.no_mine (omega arith))
                        (f.no_c (omega arith))
                      ∙ ap₂ (λ p s. p ++ (s ++ g.rest)) (f.no_cpp (omega arith))
                          (f.no_sys (omega arith))));
          mine_all = tt;
          c_all = tt;
          cpp_all = tt;
          sys_all = tt;
          rest_all = (plain, g.rest_all);
        };
        no_mine = λ b. refl;
        no_c = λ b. refl;
        no_cpp = λ b. refl;
        no_sys = λ b. refl;
      }

pub quiet-From : (hs : List HeaderType) (n : ℕ) → quiet n hs ≡ true → From n hs
unfolding quiet next_section
quiet-From [] n q = record {
  groups = record {
    mine = [];
    c = [];
    cpp = [];
    sys = [];
    rest = [];
    parts = refl;
    mine_all = tt;
    c_all = tt;
    cpp_all = tt;
    sys_all = tt;
    rest_all = tt;
  };
  no_mine = λ _. refl;
  no_c = λ _. refl;
  no_cpp = λ _. refl;
  no_sys = λ _. refl;
}
quiet-From (c_sys_header ∷ hs) n q = elim (Bool-cases (leb n 2)) [
  | inl le ↦ add_c hs n (ground arith) (quiet-From hs 2 (ground arith))
  | inr gt ↦ ground arith
]
quiet-From (cpp_sys_header ∷ hs) n q = elim (Bool-cases (leb n 3)) [
  | inl le ↦ add_cpp hs n (ground arith) (quiet-From hs 3 (ground arith))
  | inr gt ↦ ground arith
]
quiet-From (other_sys_header ∷ hs) n q = elim (Bool-cases (leb n 4)) [
  | inl le ↦ add_sys hs n (ground arith) (quiet-From hs 4 (ground arith))
  | inr gt ↦ ground arith
]
quiet-From (other_header ∷ hs) n q = add_rest hs n other_header refl (quiet-From hs 5 q)
quiet-From (likely_my_header ∷ hs) n q = elim (Bool-cases (leb n 1)) [
  | inl le ↦ add_mine hs n likely_my_header refl (ground arith) (quiet-From hs 1 (ground arith))
  | inr gt ↦ add_rest hs n likely_my_header refl (quiet-From hs 5 (ground arith))
]
quiet-From (possible_my_header ∷ hs) n q = elim (Bool-cases (leb n 1)) [
  | inl le ↦ add_mine hs n possible_my_header refl (ground arith) (quiet-From hs 1 (ground arith))
  | inr gt ↦ add_rest hs n possible_my_header refl (quiet-From hs 5 (ground arith))
]
