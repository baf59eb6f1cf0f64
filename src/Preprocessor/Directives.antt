-- ===== src/Preprocessor/Directives.antt =====
-- UpdatePreprocessor on a line, by its directive: what it makes of the two stacks.
use myframe.Common.{◌≡◌, refl, ap, ◌∙◌, true, List, [], ◌∷◌, ◌++◌}
use myframe.Text.{Text}
use myframe.Preprocessor.{
  Directive, begins, alternates, ends, other, directive_of, PreprocessorInfo, NestingState,
  preprocessor_info, see_else, on_else, on_endif, on_directive, update_preprocessor,
}

-- A line, and what the rest of Update then makes of the stack
abbrev pub Line : Type 0 → Type 0
Line B = Text × (List B → List B)

module _ {B : Type 0} where
  abbrev pub read_line : Line B → NestingState B → NestingState B
  read_line (line, f) s = let s' = update_preprocessor line s in record s' { stack = f s'.stack }

  abbrev pub read_lines : List (Line B) → NestingState B → NestingState B
  read_lines [] s = s
  read_lines (l ∷ ls) s = read_lines ls (read_line l s)

  pub read_lines-append :
      (xs ys : List (Line B)) (s : NestingState B)
      → read_lines (xs ++ ys) s ≡ read_lines ys (read_lines xs s)
  read_lines-append [] ys s = refl
  read_lines-append (x ∷ xs) ys s = read_lines-append xs ys (read_line x s)

  update-as :
      (line : Text) (d : Directive) (s : NestingState B)
      → directive_of line ≡ d
      → update_preprocessor line s ≡ on_directive d s
  unfolding update_preprocessor
  update-as line d s e = ap (λ x. on_directive x s) e

  pub other-pp :
      (l : Line B) (s : NestingState B)
      → directive_of l.0 ≡ other
      → (read_line l s).pp_stack ≡ s.pp_stack
  unfolding on_directive
  other-pp l s e = ap (λ (x : NestingState B). x.pp_stack) (update-as l.0 other s e)

  pub begins-pp :
      (l : Line B) (s : NestingState B)
      → directive_of l.0 ≡ begins
      → (read_line l s).pp_stack ≡ preprocessor_info s.stack ∷ s.pp_stack
  unfolding on_directive
  begins-pp l s e = ap (λ (x : NestingState B). x.pp_stack) (update-as l.0 begins s e)

  on_endif-pp :
      (pp : List (PreprocessorInfo B)) (s : NestingState B) (info : PreprocessorInfo B)
      (rest : List (PreprocessorInfo B))
      → pp ≡ info ∷ rest
      → (on_endif pp s).pp_stack ≡ rest
  unfolding on_endif
  on_endif-pp pp s info rest e = rw e refl

  pub ends-pp :
      (l : Line B) (s : NestingState B) (info : PreprocessorInfo B)
      (rest : List (PreprocessorInfo B))
      → directive_of l.0 ≡ ends
      → s.pp_stack ≡ info ∷ rest
      → (read_line l s).pp_stack ≡ rest
  unfolding on_directive
  ends-pp l s info rest e p =
      ap (λ (x : NestingState B). x.pp_stack) (update-as l.0 ends s e)
      ∙ on_endif-pp s.pp_stack s info rest p

  on_else-pp :
      (pp : List (PreprocessorInfo B)) (s : NestingState B) (info : PreprocessorInfo B)
      (rest : List (PreprocessorInfo B))
      → pp ≡ info ∷ rest
      → (on_else pp s).pp_stack ≡ see_else s.stack info ∷ rest
  unfolding on_else
  on_else-pp pp s info rest e = rw e refl

  on_else-stack :
      (pp : List (PreprocessorInfo B)) (s : NestingState B) (info : PreprocessorInfo B)
      (rest : List (PreprocessorInfo B))
      → pp ≡ info ∷ rest
      → (on_else pp s).stack ≡ info.stack_before_if
  unfolding on_else
  on_else-stack pp s info rest e = rw e refl

  on_endif-stack :
      (pp : List (PreprocessorInfo B)) (s : NestingState B) (info : PreprocessorInfo B)
      (rest : List (PreprocessorInfo B))
      → pp ≡ info ∷ rest
      → info.seen_else ≡ true
      → (on_endif pp s).stack ≡ info.stack_before_else
  unfolding on_endif
  on_endif-stack pp s info rest e seen = rw e (rw seen refl)

  pub see_else-seen :
      (stack : List B) (info : PreprocessorInfo B)
      → info.seen_else ≡ true
      → see_else stack info ≡ info
  unfolding see_else
  see_else-seen stack info seen = rw seen refl

  pub alternates-pp :
      (l : Line B) (s : NestingState B) (info : PreprocessorInfo B)
      (rest : List (PreprocessorInfo B))
      → directive_of l.0 ≡ alternates
      → s.pp_stack ≡ info ∷ rest
      → (read_line l s).pp_stack ≡ see_else s.stack info ∷ rest
  unfolding on_directive
  alternates-pp l s info rest e p =
      ap (λ (x : NestingState B). x.pp_stack) (update-as l.0 alternates s e)
      ∙ on_else-pp s.pp_stack s info rest p

  pub alternates-stack :
      (l : Line B) (s : NestingState B) (info : PreprocessorInfo B)
      (rest : List (PreprocessorInfo B))
      → directive_of l.0 ≡ alternates
      → s.pp_stack ≡ info ∷ rest
      → (update_preprocessor l.0 s).stack ≡ info.stack_before_if
  unfolding on_directive
  alternates-stack l s info rest e p =
      ap (λ (x : NestingState B). x.stack) (update-as l.0 alternates s e)
      ∙ on_else-stack s.pp_stack s info rest p

  pub ends-stack :
      (l : Line B) (s : NestingState B) (info : PreprocessorInfo B)
      (rest : List (PreprocessorInfo B))
      → directive_of l.0 ≡ ends
      → s.pp_stack ≡ info ∷ rest
      → info.seen_else ≡ true
      → (update_preprocessor l.0 s).stack ≡ info.stack_before_else
  unfolding on_directive
  ends-stack l s info rest e p seen =
      ap (λ (x : NestingState B). x.stack) (update-as l.0 ends s e)
      ∙ on_endif-stack s.pp_stack s info rest p seen
