-- ===== src/Style/Checks/Macros.antt =====
-- The tables of CHECK macros and of operators of cpplint.py.
pub mod Inverse
use myframe.Common.{List, [], ◌∷◌, ◌++◌, ◌==◌}
use myframe.Text.{Text, codes}

-- _CHECK_MACROS, by what the macro asserts of its argument
pub data CheckMacro : Type 0 where
  dcheck check expect_true assert_true expect_false assert_false : CheckMacro

abbrev pub macro_name : CheckMacro → Text
macro_name dcheck = codes "DCHECK"
macro_name check = codes "CHECK"
macro_name expect_true = codes "EXPECT_TRUE"
macro_name assert_true = codes "ASSERT_TRUE"
macro_name expect_false = codes "EXPECT_FALSE"
macro_name assert_false = codes "ASSERT_FALSE"

unfoldable pub check_macros : List CheckMacro
check_macros = dcheck ∷ check ∷ expect_true ∷ assert_true ∷ expect_false ∷ assert_false ∷ []

-- The comparison operators, which are the keys of the tables
pub data Comparison : Type 0 where
  eq ne ge gt le lt : Comparison

abbrev pub operator_text : Comparison → Text
operator_text eq = codes "=="
operator_text ne = codes "!="
operator_text ge = codes ">="
operator_text gt = codes ">"
operator_text le = codes "<="
operator_text lt = codes "<"

abbrev pub suffix : Comparison → Text
suffix eq = codes "EQ"
suffix ne = codes "NE"
suffix ge = codes "GE"
suffix gt = codes "GT"
suffix le = codes "LE"
suffix lt = codes "LT"

-- inv_replacement
unfoldable pub inverse : Comparison → Comparison
inverse eq = ne
inverse ne = eq
inverse ge = lt
inverse gt = le
inverse le = gt
inverse lt = ge

-- The comparison that the replacement for a macro asserts
unfoldable pub replacement_comparison : CheckMacro → Comparison → Comparison
unfolding inverse
replacement_comparison expect_false op = inverse op
replacement_comparison assert_false op = inverse op
replacement_comparison _ op = op

abbrev pub replacement_prefix : CheckMacro → Text
replacement_prefix dcheck = codes "DCHECK_"
replacement_prefix check = codes "CHECK_"
replacement_prefix expect_true = codes "EXPECT_"
replacement_prefix expect_false = codes "EXPECT_"
replacement_prefix assert_true = codes "ASSERT_"
replacement_prefix assert_false = codes "ASSERT_"

-- _CHECK_REPLACEMENT[macro][operator]
unfoldable pub check_replacement : CheckMacro → Comparison → Text
unfolding replacement_comparison
check_replacement macro op = replacement_prefix macro ++ suffix (replacement_comparison macro op)
