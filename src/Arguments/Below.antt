-- ===== src/Arguments/Below.antt =====
-- _IsParentOrSame of cpplint.py, against paths that are the same or one below another.
use myframe.Common.{
  ℕ, ◌≡◌, ◌≢◌, ◌⊎◌, inl, inr, refl, Bool, true, false, List, [], ◌∷◌, ◌++◌, ◌==◌, any, All, arith,
  Bool-cases,
}
use myframe.Text.{Text, text_eq}
use myframe.Text.Laws.{text_eq_refl}
use myframe.Brackets.Balanced.{drop-append}
use myframe.Options.{Options}
use myframe.Arguments.{Shell, without_separators, is_parent_or_same, is_excluded}

abbrev pub begins_with : ℕ → Text → Bool
begins_with c [] = false
begins_with c (d ∷ s) = d == c

abbrev pub stops_with : ℕ → Text → Bool
stops_with c [] = false
stops_with c (d ∷ []) = d == c
stops_with c (d ∷ e ∷ s) = stops_with c (e ∷ s)

-- What os.path documents of commonprefix where one path begins with the other, and of join where the
-- first part is not empty and has no separator at its end and the second has none in front
pub record JoinsPaths (shell : Shell) : Type 0 where
  pub prefix_of : (p r : Text) → shell.host.os.commonprefix p (p ++ r) ≡ p
  pub joined :
      (p r : Text)
      → p ≢ []
      → stops_with shell.sep p ≡ false
      → begins_with shell.sep r ≡ false
      → shell.host.os.join_path p r ≡ p ++ shell.sep ∷ r

-- A path in its normal form is another one, with a separator and a rest behind it. The other one is not
-- the root, whose normal form has a separator at its end.
abbrev pub IsBelow : Shell → Text → Text → Type 0
IsBelow shell parent child =
    let p = shell.host.os.normpath parent in
    (r : Text) × (shell.host.os.normpath child ≡ p ++ shell.sep ∷ r)
    × (p ≢ [])
    × (stops_with shell.sep p ≡ false)
    × (begins_with shell.sep r ≡ false)

-- The file is the path, or is below it, once both are made absolute.
abbrev pub IsAt : Shell → Text → Text → Type 0
IsAt shell e f =
    let os = shell.host.os in
    (os.normpath (os.abspath e) ≡ os.normpath (os.abspath f))
    ⊎ IsBelow shell (os.abspath e) (os.abspath f)

without_separators-one :
    (sep : ℕ) (r : Text) → begins_with sep r ≡ false → without_separators sep (sep ∷ r) ≡ r
without_separators-one sep [] h = ground arith
without_separators-one sep (c ∷ r) h = ground arith

is_parent_or_same-normpath :
    (shell : Shell) (parent child : Text)
    → shell.host.os.normpath parent ≡ shell.host.os.normpath child
    → is_parent_or_same shell parent child ≡ true
unfolding is_parent_or_same
is_parent_or_same-normpath shell parent child e =
    rw (e, text_eq_refl (shell.host.os.normpath child)) refl

is_parent_or_same-IsBelow :
    (shell : Shell) (parent child : Text)
    → JoinsPaths shell
    → IsBelow shell parent child
    → is_parent_or_same shell parent child ≡ true
unfolding is_parent_or_same
is_parent_or_same-IsBelow shell parent child joins (r, e, full, plain, single) =
    let p = shell.host.os.normpath parent in
    elim (Bool-cases (text_eq p (shell.host.os.normpath child))) [
      | inl equal ↦ rw equal refl
      | inr other ↦ rw other (
          rw
            (
              e,
              joins.prefix_of p (shell.sep ∷ r),
              text_eq_refl p,
              drop-append p (shell.sep ∷ r),
              without_separators-one shell.sep r single,
              joins.joined p r full plain single,
            )
            (text_eq_refl (p ++ shell.sep ∷ r)))
    ]

-- Where no path excludes the file, the file is at none of them.
any-IsAt :
    (shell : Shell) (f : Text) (es : List Text)
    → JoinsPaths shell
    → any (λ e. is_parent_or_same shell (shell.host.os.abspath e) (shell.host.os.abspath f)) es
      ≡ false
    → All (λ e. ¬ IsAt shell e f) es
any-IsAt shell f [] joins h = tt
any-IsAt shell f (e ∷ es) joins h =
    let os = shell.host.os in
    (
      (λ at. elim at [
        | inl equal ↦
            absurd
              (ground (arith, is_parent_or_same-normpath shell (os.abspath e) (os.abspath f) equal))
        | inr under ↦ absurd (
            ground
              (arith, is_parent_or_same-IsBelow shell (os.abspath e) (os.abspath f) joins under))
      ]),
      any-IsAt shell f es joins (ground arith),
    )

pub is_excluded-IsAt :
    (shell : Shell) (o : Options) (f : Text)
    → JoinsPaths shell
    → is_excluded shell o f ≡ false
    → All (λ e. ¬ IsAt shell e f) o.excludes
is_excluded-IsAt shell o f joins h = any-IsAt shell f o.excludes joins h
