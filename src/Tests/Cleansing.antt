-- ===== src/Tests/Cleansing.antt =====
-- Cleanse.antt and Preprocessor.antt on concrete lines.
use myframe.Common.{ℕ, ◌≡◌, refl, none, List, [], ◌∷◌, ◌++◌, drop}
use myframe.Text.{Text, codes}
use myframe.Cleanse.Raw.{cleanse_raw_strings}
use myframe.Cleanse.Comments.{remove_multi_line_comments, begins_comment}
use myframe.Cleanse.Lines.{cleanse_comments, collapse_strings, is_cpp_string}
use myframe.Preprocessor.{NestingState, directive_of}
use myframe.Preprocessor.Directives.{read_line, read_lines}
use myframe.Preprocessor.Branches.{nothing, ordinary, last_branch, read_lines-Branches}

-- `x = R"a(b` , `)" c)a" + 1;`
abbrev raw_lines : List Text
raw_lines =
    (codes "x = R" ++ 34 ∷ codes "a(b")
    ∷ (codes " )" ++ 34 ∷ codes " c)a" ++ 34 ∷ codes " + 1;")
    ∷ codes "y;"
    ∷ []

raw_replaced :
    cleanse_raw_strings raw_lines
    ≡ (codes "x = " ++ 34 ∷ 34 ∷ []) ∷ (codes " " ++ 34 ∷ 34 ∷ codes " + 1;") ∷ codes "y;" ∷ []
unfolding cleanse_raw_strings myframe.Regex.match_pattern myframe.Text.is_space
    myframe.Text.has_char
raw_replaced = refl

comments_removed :
    remove_multi_line_comments (codes "a" ∷ codes " /* b" ∷ codes "c */ " ∷ codes "/* d */" ∷ [])
    ≡ (codes "a" ∷ codes "/**/" ∷ codes "/**/" ∷ codes "/* d */" ∷ [], [])
unfolding remove_multi_line_comments begins_comment myframe.Text.starts_with myframe.Text.strip
    myframe.Text.find myframe.Cleanse.Comments.ends_comment
comments_removed = refl

comment_cut : cleanse_comments (codes "a/**/; //") ≡ codes "a;"
unfolding cleanse_comments myframe.Regex.replace_all myframe.Text.find is_cpp_string
    myframe.Text.rstrip myframe.Text.has_char
comment_cut = refl

strings_collapsed :
    collapse_strings (codes "f(" ++ 34 ∷ codes "a'b" ++ 34 ∷ codes ", 'x', 1'000)")
    ≡ codes "f(" ++ 34 ∷ 34 ∷ codes ", '', 1000)"
unfolding collapse_strings myframe.Regex.match_pattern myframe.Text.is_space
    myframe.Regex.replace_all myframe.Text.has_char myframe.Text.text_eq
    myframe.Regex.search_pattern
strings_collapsed = refl

-- `#if A`, `{`, `#else`, `}`, `#endif` on a stack of numbers
abbrev two_blocks : NestingState ℕ
two_blocks = record { stack = 2 ∷ 1 ∷ []; previous_stack_top = none; pp_stack = [] }

abbrev keep : List ℕ → List ℕ
keep s = s

read_lines-Branches_example :
    let s1 = read_lines ((codes "#if A", keep) ∷ (codes "{", λ s. 3 ∷ s) ∷ []) two_blocks in
    let s2 = read_line (codes "# else", keep) s1 in
    let s3 =
      read_lines
        ((codes "#if A", keep)
          ∷ (codes "{", λ s. 3 ∷ s)
          ∷ (codes "# else", keep)
          ∷ (codes "}", λ s. drop 1 s)
          ∷ (codes "#endif", keep)
          ∷ [])
        two_blocks in
    (s2.stack ≡ 2 ∷ 1 ∷ []) × (s3.stack ≡ s1.stack) × (s3.pp_stack ≡ [])
unfolding directive_of myframe.Regex.match_pattern myframe.Text.is_space
read_lines-Branches_example =
    read_lines-Branches two_blocks (codes "#if A", keep) (codes "# else", keep)
      (codes "#endif", keep) ((codes "{", λ s. 3 ∷ s) ∷ []) ((codes "}", λ s. drop 1 s) ∷ []) refl
      (ordinary (codes "{", λ s. 3 ∷ s) [] refl nothing) refl
      (last_branch ((codes "}", λ s. drop 1 s) ∷ [])
        (ordinary (codes "}", λ s. drop 1 s) [] refl nothing))
      refl
