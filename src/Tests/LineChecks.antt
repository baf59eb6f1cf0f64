-- ===== src/Tests/LineChecks.antt =====
-- Runs of the checks of LineChecks on concrete lines.
use myframe.Common.{◌≡◌, refl, List, [], ◌∷◌}
use myframe.Text.{Text, codes}
use myframe.Categories.{Diagnostic}
use myframe.LineChecks.{
  check_posix_threading, check_vlog_arguments, check_make_pair_uses_deduction,
  check_redundant_override_or_final,
}
use myframe.LineChecks.Virtual.{check_redundant_virtual}

abbrev categories : List Diagnostic → List Text
categories [] = []
categories (d ∷ ds) = d.category ∷ categories ds

unsafe :
    categories (check_posix_threading (codes "x = rand();") 1) ≡ codes "runtime/threadsafe_fn" ∷ []
unfolding check_posix_threading myframe.Regex.search_pattern myframe.Regex.match_pattern
    myframe.Text.is_space myframe.Text.has_char
unsafe = refl

safe : categories (check_posix_threading (codes "ctime(&t); mktime();") 1) ≡ []
unfolding check_posix_threading myframe.Regex.search_pattern myframe.Regex.match_pattern
    myframe.Text.is_space myframe.Text.has_char
safe = refl

symbolic :
    categories (check_vlog_arguments (codes "VLOG(INFO) << x;") 1) ≡ codes "runtime/vlog" ∷ []
unfolding check_vlog_arguments myframe.Regex.search_pattern myframe.Regex.match_pattern
    myframe.Text.is_space
symbolic = refl

numeric : categories (check_vlog_arguments (codes "VLOG(1) << x;") 1) ≡ []
unfolding check_vlog_arguments myframe.Regex.search_pattern myframe.Regex.match_pattern
    myframe.Text.is_space
numeric = refl

template_arguments :
    categories (check_make_pair_uses_deduction (codes "make_pair <int, int>(1, 2)") 1)
    ≡ codes "build/explicit_make_pair" ∷ []
unfolding check_make_pair_uses_deduction myframe.Regex.search_pattern myframe.Regex.match_pattern
    myframe.Text.is_space
template_arguments = refl

both_specifiers :
    categories (check_redundant_override_or_final ([] ∷ codes "void f() override final;" ∷ []) 1)
    ≡ codes "readability/inheritance" ∷ []
unfolding check_redundant_override_or_final myframe.Regex.search_pattern myframe.Regex.match_pattern
    myframe.Text.is_space
both_specifiers = refl

redundant :
    categories (
      check_redundant_virtual
        ([] ∷ codes "virtual void f(int a," ∷ codes "  int b) override;" ∷ [])
        1)
    ≡ codes "readability/inheritance" ∷ []
unfolding check_redundant_virtual myframe.Regex.search_pattern myframe.Regex.match_pattern
    myframe.Text.is_space myframe.Text.has_char myframe.Brackets.shift_pattern
    myframe.Brackets.close_in_rest myframe.Brackets.find_end_of_expression_in_line
    myframe.Brackets.end_move
redundant = refl

virtual_base :
    categories (check_redundant_virtual ([] ∷ codes "class B : public virtual A {" ∷ []) 1) ≡ []
unfolding check_redundant_virtual myframe.Regex.search_pattern myframe.Regex.match_pattern
    myframe.Text.is_space
virtual_base = refl
