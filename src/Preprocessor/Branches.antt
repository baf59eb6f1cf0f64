-- ===== src/Preprocessor/Branches.antt =====
-- UpdatePreprocessor over the branches of an #if, up to its #endif.
use myframe.Common.{◌≡◌, refl, ap, ◌∙◌, true, List, [], ◌∷◌, ◌++◌}
use myframe.Preprocessor.{
  begins, alternates, ends, other, directive_of, PreprocessorInfo, NestingState, preprocessor_info,
  see_else,
}
use myframe.Preprocessor.Directives.{
  Line, read_line, read_lines, read_lines-append, other-pp, begins-pp, ends-pp, see_else-seen,
  alternates-pp, alternates-stack, ends-stack,
}

mutual
  -- Lines in which each #if has its #endif, and no other #else or #endif stands
  pub data Nested (B : Type 0) : List (Line B) → Type 0 where
    nothing : Nested B []
    ordinary :
        (l : Line B) (ls : List (Line B))
        → directive_of l.0 ≡ other
        → Nested B ls
        → Nested B (l ∷ ls)
    block :
        (l0 l1 : Line B) (inside ls : List (Line B))
        → directive_of l0.0 ≡ begins
        → Branches B inside
        → directive_of l1.0 ≡ ends
        → Nested B ls
        → Nested B (l0 ∷ (inside ++ l1 ∷ ls))

  -- Such lines, with #else and #elif lines of one #if between them
  pub data Branches (B : Type 0) : List (Line B) → Type 0 where
    last_branch : (ls : List (Line B)) → Nested B ls → Branches B ls
    next_branch :
        (ls rest : List (Line B)) (l : Line B)
        → Nested B ls
        → directive_of l.0 ≡ alternates
        → Branches B rest
        → Branches B (ls ++ l ∷ rest)

module _ {B : Type 0} where
  -- The information of an #if behind its first #else
  abbrev saved : List B → List B → PreprocessorInfo B
  saved before_if before_else = record {
    stack_before_if = before_if;
    stack_before_else = before_else;
    seen_else = true;
  }

  see_else-first :
      (before_if before_else : List B)
      → see_else before_else (preprocessor_info before_if) ≡ saved before_if before_else
  unfolding see_else preprocessor_info
  see_else-first before_if before_else = refl

  preprocessor_info-stack : (stack : List B) → (preprocessor_info stack).stack_before_if ≡ stack
  unfolding preprocessor_info
  preprocessor_info-stack stack = refl

  -- The information of the innermost #if stays, once an #else was seen.
  abbrev Kept : PreprocessorInfo B → List (PreprocessorInfo B) → NestingState B → Type 0
  Kept info rest s =
      (info' : PreprocessorInfo B) × (s.pp_stack ≡ info' ∷ rest)
      × (info.seen_else ≡ true → info' ≡ info)

  mutual
    Nested-pp :
        (ls : List (Line B)) (s : NestingState B)
        → Nested B ls
        → (read_lines ls s).pp_stack ≡ s.pp_stack
    Nested-pp [] s nothing = refl
    Nested-pp (l ∷ ls) s (ordinary _ _ e h) = Nested-pp ls (read_line l s) h ∙ other-pp l s e
    Nested-pp (l0 ∷ _) s (block _ l1 inside ls e0 h e1 k) =
        let s0 = read_line l0 s in
        let (info, p, _) =
          Branches-pp inside s0 (preprocessor_info s.stack) s.pp_stack h (begins-pp l0 s e0) in
        let s1 = read_lines inside s0 in
        ap (λ (x : NestingState B). x.pp_stack) (read_lines-append inside (l1 ∷ ls) s0)
        ∙ Nested-pp ls (read_line l1 s1) k
        ∙ ends-pp l1 s1 info s.pp_stack e1 p

    Branches-pp :
        (ls : List (Line B)) (s : NestingState B) (info : PreprocessorInfo B)
        (rest : List (PreprocessorInfo B))
        → Branches B ls
        → s.pp_stack ≡ info ∷ rest
        → Kept info rest (read_lines ls s)
    Branches-pp ls s info rest (last_branch _ h) p = (info, Nested-pp ls s h ∙ p, λ _. refl)
    Branches-pp _ s info rest (next_branch ls more l h e k) p =
        let s1 = read_lines ls s in
        let p1 : s1.pp_stack ≡ info ∷ rest = Nested-pp ls s h ∙ p in
        let (info', q, same) =
          Branches-pp more (read_line l s1) (see_else s1.stack info) rest k
            (alternates-pp l s1 info rest e p1) in
        let seen_lem = see_else-seen s1.stack info in
        (
          info',
          ap (λ (x : NestingState B). x.pp_stack) (read_lines-append ls (l ∷ more) s) ∙ q,
          λ seen.
              same (ap (λ (x : PreprocessorInfo B). x.seen_else) (seen_lem seen) ∙ seen)
              ∙ seen_lem seen,
        )

  -- The #if line `l0` with a well nested first branch, the #else or #elif line `l1`, any further
  -- branches, and the #endif line `l2`. Where the second branch begins, the stack is the one before
  -- the #if; behind the #endif it is the one at the end of the first branch, and the stack of #if
  -- blocks is the one before the #if. Each line then makes of the stack what it does itself.
  pub read_lines-Branches :
      (s : NestingState B) (l0 l1 l2 : Line B) (first others : List (Line B))
      → directive_of l0.0 ≡ begins
      → Nested B first
      → directive_of l1.0 ≡ alternates
      → Branches B others
      → directive_of l2.0 ≡ ends
      → let s1 = read_lines (l0 ∷ first) s in
        let s2 = read_line l1 s1 in
        let s3 = read_lines (l0 ∷ (first ++ l1 ∷ (others ++ l2 ∷ []))) s in
        (s2.stack ≡ l1.1 s.stack) × (s3.stack ≡ l2.1 s1.stack) × (s3.pp_stack ≡ s.pp_stack)
  read_lines-Branches s l0 l1 l2 first others e0 h e1 k e2 =
      let rest = s.pp_stack in
      let s1 = read_lines (l0 ∷ first) s in
      let s2 = read_line l1 s1 in
      let p1 : s1.pp_stack ≡ preprocessor_info s.stack ∷ rest =
        Nested-pp first (read_line l0 s) h ∙ begins-pp l0 s e0 in
      let p2 : s2.pp_stack ≡ saved s.stack s1.stack ∷ rest =
        alternates-pp l1 s1 (preprocessor_info s.stack) rest e1 p1
        ∙ ap (λ x. x ∷ rest) (see_else-first s.stack s1.stack) in
      let (info, p3, same) = Branches-pp others s2 (saved s.stack s1.stack) rest k p2 in
      let s3 = read_lines others s2 in
      let p4 : s3.pp_stack ≡ saved s.stack s1.stack ∷ rest = p3 ∙ ap (λ x. x ∷ rest) (same refl) in
      let whole =
        read_lines-append first (l1 ∷ (others ++ l2 ∷ [])) (read_line l0 s)
        ∙ read_lines-append others (l2 ∷ []) s2 in
      (
        ap l1.1 (
            alternates-stack l1 s1 (preprocessor_info s.stack) rest e1 p1
            ∙ preprocessor_info-stack s.stack),
        ap (λ (x : NestingState B). x.stack) whole
            ∙ ap l2.1 (ends-stack l2 s3 (saved s.stack s1.stack) rest e2 p4 refl),
        ap (λ (x : NestingState B). x.pp_stack) whole
            ∙ ends-pp l2 s3 (saved s.stack s1.stack) rest e2 p4,
      )
