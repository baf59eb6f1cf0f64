-- ===== src/Style/Checks/Macros/Inverse.antt =====
-- What the replacements that CheckCheck advises assert.
use myframe.Common.{ℕ, ◌≡◌, refl, Bool, not, ◌++◌, ltb, leb, ◌==◌, arith}
use myframe.Style.Checks.Macros.{
  CheckMacro, dcheck, check, expect_true, assert_true, expect_false, assert_false, Comparison, eq,
  ne, ge, gt, le, lt, suffix, inverse, replacement_comparison, replacement_prefix,
  check_replacement,
}

-- The value of a comparison of two numbers
abbrev pub holds : Comparison → ℕ → ℕ → Bool
holds eq a b = a == b
holds ne a b = not (a == b)
holds ge a b = leb b a
holds gt a b = ltb b a
holds le a b = leb a b
holds lt a b = ltb a b

-- The macro passes at this value of its argument.
abbrev pub passes : CheckMacro → Bool → Bool
passes expect_false value = not value
passes assert_false value = not value
passes _ value = value

inverse-holds : (op : Comparison) (a b : ℕ) → holds (inverse op) a b ≡ not (holds op a b)
unfolding inverse
inverse-holds eq a b = ground arith
inverse-holds ne a b = ground arith
inverse-holds ge a b = ground arith
inverse-holds gt a b = ground arith
inverse-holds le a b = ground arith
inverse-holds lt a b = ground arith

replacement-holds :
    (macro : CheckMacro) (op : Comparison) (a b : ℕ)
    → holds (replacement_comparison macro op) a b ≡ passes macro (holds op a b)
unfolding replacement_comparison
replacement-holds dcheck op a b = refl
replacement-holds check op a b = refl
replacement-holds expect_true op a b = refl
replacement-holds assert_true op a b = refl
replacement-holds expect_false op a b = inverse-holds op a b
replacement-holds assert_false op a b = inverse-holds op a b

-- The replacement that is advised for a macro and an operator is the macro's prefix with the name of
-- a comparison that holds of two numbers exactly when the macro passes at the operator between them.
pub check_replacement_lem :
    (macro : CheckMacro) (op : Comparison)
    → (op' : Comparison) × (check_replacement macro op ≡ replacement_prefix macro ++ suffix op')
      × ((a b : ℕ) → holds op' a b ≡ passes macro (holds op a b))
unfolding check_replacement
check_replacement_lem macro op = (replacement_comparison macro op, refl, replacement-holds macro op)
