-- ===== src/Tests/Files.antt =====
-- FileChecks.antt and HeaderGuard.antt on a concrete file.
use myframe.Common.{◌≡◌, refl, List, [], ◌∷◌}
use myframe.Text.{Text, codes}
use myframe.FileChecks.{get_indent_level}
use myframe.HeaderGuard.{see_lines, no_guards, words}
use myframe.HeaderGuard.Sought.{see_lines-endif, see_lines-ifndef}

abbrev header : List Text
header =
    codes "//"
    ∷ codes "#ifndef A_H_"
    ∷ codes "#define A_H_"
    ∷ codes "#if B"
    ∷ codes "#endif"
    ∷ codes "#endif  // A_H_"
    ∷ []

indented : get_indent_level (codes "  x") ≡ 2
unfolding get_indent_level myframe.Regex.match_pattern myframe.Text.is_space
indented = refl

see_lines-endif_example :
    let g = see_lines 0 header no_guards in
    (g.endif ≡ codes "#endif  // A_H_") × (g.endif_linenum ≡ 5)
unfolding myframe.Text.starts_with
see_lines-endif_example =
    see_lines-endif
      (codes "//"
        ∷ codes "#ifndef A_H_"
        ∷ codes "#define A_H_"
        ∷ codes "#if B"
        ∷ codes "#endif"
        ∷ [])
      [] (codes "#endif  // A_H_") refl tt

see_lines-ifndef_example :
    let g = see_lines 0 header no_guards in (g.ifndef ≡ codes "A_H_") × (g.ifndef_linenum ≡ 1)
unfolding words myframe.Text.is_space
see_lines-ifndef_example =
    see_lines-ifndef (codes "//" ∷ [])
      (codes "#define A_H_" ∷ codes "#if B" ∷ codes "#endif" ∷ codes "#endif  // A_H_" ∷ [])
      (codes "#ifndef A_H_") b'A' (codes "_H_") [] (refl, tt) refl
