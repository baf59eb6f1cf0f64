-- ===== src/Tests/Brackets.antt =====
-- Brackets.antt and Regex.antt on concrete lines.
use myframe.Common.{ℕ, ◌-◌, ◌≡◌, refl, some, List, [], ◌∷◌}
use myframe.Text.{Text, codes}
use myframe.Regex.{Regex, match_pattern, search_pattern}
use myframe.Brackets.{
  close_expression, find_end_of_expression_in_line, found, operator_pattern, shift_pattern,
}
use myframe.Brackets.Balanced.{Balanced, nil, plain, wrap}
use myframe.Brackets.Bounds.{ClosingOrNone, close_expression-ClosingOrNone}
use myframe.Brackets.Match.{close_expression-lines}
use myframe.Brackets.Reverse.{reverse_close_expression}
use myframe.Brackets.Reverse.Laws.{reverse-close}

-- `f(a[i],` and then `b)`
abbrev call : List Text
call = codes "f(a[i]," ∷ codes "b);" ∷ []

call_closes :
    close_expression call 0 1 ≡ some (record { line = codes "b);"; linenum = 1; pos = some 2 })
unfolding close_expression myframe.Brackets.close_in_rest find_end_of_expression_in_line
    shift_pattern match_pattern myframe.Brackets.end_move myframe.Text.has_char
call_closes = refl

call_opens :
    reverse_close_expression call 1 1
    ≡ some (record { line = codes "f(a[i],"; linenum = 0; pos = some 1 })
unfolding reverse_close_expression myframe.Brackets.Reverse.open_in_rest
    myframe.Brackets.Reverse.find_start_of_expression_in_line myframe.Brackets.Reverse.start_move
    myframe.Text.has_char
call_opens = refl

-- A shift is no template, and a template argument list is closed.
template_closes :
    close_expression (codes "map<int, a<b> > x" ∷ []) 0 3
    ≡ some (record { line = codes "map<int, a<b> > x"; linenum = 0; pos = some 15 })
unfolding close_expression myframe.Brackets.close_in_rest find_end_of_expression_in_line
    shift_pattern match_pattern myframe.Brackets.end_move myframe.Text.has_char
    myframe.Brackets.less_than myframe.Brackets.greater_than search_pattern
template_closes = refl

-- `operator>` is cut short before it is looked for, so its `>` ends the expression; the `<` of
-- `operator<` does not begin one.
operator_greater_closes :
    find_end_of_expression_in_line (codes "<A operator>(x)> y") 0 [] ≡ found 12
unfolding find_end_of_expression_in_line myframe.Brackets.end_move myframe.Brackets.less_than
    myframe.Brackets.greater_than search_pattern operator_pattern
operator_greater_closes = refl

bracketed : Balanced (codes "[i]")
bracketed = wrap 91 93 (codes "i") [] refl (plain 105 [] refl nil) nil (codes "[i]") refl

arguments : Balanced (codes "a[i],")
arguments = plain 97 (codes "[i],") refl (
    wrap 91 93 (codes "i") (codes ",") refl (plain 105 [] refl nil) (plain 44 [] refl nil)
      (codes "[i],") refl)

close_expression-lines_example :
    close_expression call 0 1 ≡ some (record { line = codes "b);"; linenum = 1; pos = some 2 })
close_expression-lines_example =
    close_expression-lines call 0 (codes "f") 40 (codes "a[i],") [] (codes "b") 41 (codes ";") []
      refl refl refl arguments tt (plain 98 [] refl nil)

close_expression-ClosingOrNone_example :
    ClosingOrNone call 0 (record { line = codes "b);"; linenum = 1; pos = some 2 })
close_expression-ClosingOrNone_example =
    close_expression-ClosingOrNone call 0 1
      (record { line = codes "b);"; linenum = 1; pos = some 2 }) call_closes

reverse-close_example :
    (end : ℕ) × (close_expression (codes "x({i;})" ∷ []) 0 1
      ≡ some (record { line = codes "x({i;})"; linenum = 0; pos = some end }))
    × (reverse_close_expression (codes "x({i;})" ∷ []) 0 (end - 1)
        ≡ some (record { line = codes "x({i;})"; linenum = 0; pos = some 1 }))
reverse-close_example =
    reverse-close (codes "x({i;})" ∷ []) 0 (codes "x") 40 (codes "{i;}") 41 [] refl refl (
      wrap 123 125 (codes "i;") [] refl (plain 105 (codes ";") refl (plain 59 [] refl nil)) nil
        (codes "{i;}") refl)

-- `operator` is found behind a space, as a word, with the space behind it.
operator_found :
    search_pattern operator_pattern (codes "int operator ")
    ≡ some (record { at = 4; text = codes "operator "; rest = []; groups = [] })
unfolding search_pattern operator_pattern myframe.Regex.run myframe.Text.is_space
operator_found = refl
