-- ===== src/Tests/Blocks.antt =====
-- Blocks.antt and Nesting.antt on concrete lines.
use myframe.Common.{◌≡◌, ◌≢◌, none, refl, true, List, [], ◌∷◌, length}
use myframe.Text.{Text, codes}
use myframe.Cleanse.Lines.{CleansedLines, cleansed_lines}
use myframe.Blocks.{class_info, block_info}
use myframe.Nesting.Stack.{Blocks, open_brace}
use myframe.Nesting.Tokens.{consume_tokens}
use myframe.Nesting.Tokens.Scan.{scan, consume_tokens-scan}
use myframe.Nesting.Tokens.Balanced.{consume_tokens-balanced}
use myframe.Nesting.Templates.{template_from, rounds_of}
use myframe.Nesting.Templates.Ends.{template_from-ne-none}
use myframe.Nesting.Update.{check_completed_blocks}
use myframe.Nesting.Update.Completed.{updates, IsNesting, Between, completed_in_order}

abbrev source : List Text
source =
    codes "class A {"
    ∷ codes "  int f() { if (a) { return 1; } else { return 2; } }"
    ∷ codes "};"
    ∷ []

abbrev clean : CleansedLines
clean = cleansed_lines source

abbrev in_class : Blocks
in_class = record {
  stack = open_brace true (class_info 0 (codes "A") (codes "class") clean 0) ∷ [];
  next_id = 1;
}

abbrev body : Text
body = codes "  int f() { if (a) { return 1; } else { return 2; } }"

consume_tokens-scan_example :
    consume_tokens (length body) clean 1 body in_class ≡ scan clean 1 body body in_class
unfolding myframe.Text.has_char
consume_tokens-scan_example = consume_tokens-scan clean 1 body in_class refl

consume_tokens-balanced_example :
    ((consume_tokens (length body) clean 1 body in_class).0.stack ≡ in_class.stack)
    × ((consume_tokens (length body) clean 1 body in_class).1 ≡ [])
unfolding myframe.Text.has_char myframe.Nesting.Stack.seen_open_brace class_info block_info
consume_tokens-balanced_example = consume_tokens-balanced clean 1 body in_class refl refl refl

abbrev template_lines : List Text
template_lines =
    codes "template <class A," ∷ codes "          class B = C<D>>" ∷ codes "void f();" ∷ []

-- A closing brace too few: the class is open at the end.
abbrev cut_off : CleansedLines
cut_off = cleansed_lines (codes "namespace n {" ∷ codes "class A {" ∷ codes "  int a;" ∷ [])

completed_in_order_example :
    IsNesting 2 (updates cut_off 3)
    × Between 0 2 (check_completed_blocks (updates cut_off 3).state.stack)
completed_in_order_example = completed_in_order cut_off 2

template_from-ne-none_example : template_from (rounds_of template_lines) template_lines 0 16 ≢ none
template_from-ne-none_example = template_from-ne-none template_lines 0 16
