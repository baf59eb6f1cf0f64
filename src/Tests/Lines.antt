-- ===== src/Tests/Lines.antt =====
-- Functions.antt on concrete lines.
use myframe.Common.{suc, ◌*◌, ◌^◌, ◌≡◌, ◌≤◌, ◌<◌, ◌⊎◌, refl, true, false, List, [], ◌∷◌}
use myframe.Text.{Text, codes}
use myframe.Regex.{match_pattern}
use myframe.Categories.{Diagnostic}
use myframe.Functions.{
  FunctionState, init_function_state, begin, check_length, base_trigger, check_for_function_lengths,
  is_starting_func,
}
use myframe.Functions.Trigger.{check_length_lem}

abbrev source : List Text
source = codes "int f(int a) {" ∷ codes "  a++;" ∷ [] ∷ codes "  return a;" ∷ codes "}" ∷ []

abbrev in_f : FunctionState
in_f = record { in_a_function = true; lines_in_function = 0; current_function = codes "f()" }

function_begun : (check_for_function_lengths 1 source 0 init_function_state).0 ≡ in_f
unfolding check_for_function_lengths init_function_state is_starting_func match_pattern
    myframe.Functions.declaration_pattern myframe.Functions.macro_pattern
    myframe.Functions.start_function myframe.Functions.find_body myframe.Functions.function_name
    myframe.Functions.function_pattern myframe.Regex.search_pattern myframe.Text.last_word
    myframe.Text.text_eq myframe.Text.lstrip myframe.Text.is_space myframe.Text.has_char begin
function_begun = refl

-- A function of 501 lines at verbosity 1, and one of 500.
abbrev long_body : FunctionState
long_body = record in_f { lines_in_function = 501 }

long_reported : check_length 1 9 (record in_f { lines_in_function = 500 }) ≡ []
unfolding check_length base_trigger myframe.Functions.test_pattern match_pattern
long_reported = refl

check_length_lem_example :
    ((check_length 1 9 long_body ≡ []) × ((true ≡ false) ⊎ (501 ≤ base_trigger long_body * 2 ^ 1)))
    ⊎ ((d : Diagnostic) × (check_length 1 9 long_body ≡ d ∷ [])
        × (true ≡ true)
        × (base_trigger long_body * 2 ^ 1 < 501)
        × (base_trigger long_body * 2 ^ d.confidence ≤ 501)
        × (d.confidence ≤ 5)
        × ((d.confidence ≡ 5) ⊎ (501 < base_trigger long_body * 2 ^ suc d.confidence))
        × (1 ≤ 5 → 1 ≤ d.confidence))
check_length_lem_example = check_length_lem 1 9 long_body
