-- ===== src/Nesting/Update/Completed.antt =====
-- NestingState of cpplint.py over the lines of a file, and CheckCompletedBlocks at its end.
use myframe.Common.{
  ℕ, zero, suc, ◌≤◌, ◌≡◌, refl, Bool, true, false, List, [], ◌∷◌, ◌++◌, get_or, All, if-both, arith,
}
use mathlib.Core.List.{append-nil}
use myframe.Categories.{Diagnostic}
use myframe.Cleanse.Lines.{CleansedLines}
use myframe.Blocks.{Block, generic_block, extern_c_block, class_block, namespace_block}
use myframe.Preprocessor.{
  NestingState, PreprocessorInfo, Directive, begins, alternates, ends, other, on_directive, on_else,
  on_endif, see_else, preprocessor_info, directive_of, update_preprocessor,
}
use myframe.Nesting.Update.{
  Nesting, init_nesting, copied, after_preprocessor, copies_stack, top_of, update, incomplete,
  check_completed_blocks,
}
use myframe.Nesting.Update.Ordered.{IsStack, IsStack-weaken, update_blocks-Kept}

-- The stacks that an #if saved
abbrev IsSaved : ℕ → ℕ → PreprocessorInfo Block → Type 0
IsSaved line id info = IsStack line id info.stack_before_if × IsStack line id info.stack_before_else

abbrev IsState : ℕ → ℕ → NestingState Block → Type 0
IsState line id s = IsStack line id s.stack × All (IsSaved line id) s.pp_stack

abbrev pub IsNesting : ℕ → Nesting → Type 0
IsNesting line n = IsState line n.next_id n.state

All-weaken :
    (line line' id id' : ℕ) (infos : List (PreprocessorInfo Block))
    → line ≤ line'
    → id ≤ id'
    → All (IsSaved line id) infos
    → All (IsSaved line' id') infos
All-weaken line line' id id' [] l i h = tt
All-weaken line line' id id' (info ∷ infos) l i h = (
  (IsStack-weaken line line' id id' _ l i h.0.0, IsStack-weaken line line' id id' _ l i h.0.1),
  All-weaken line line' id id' infos l i h.1,
)

on_else-IsState :
    (line id : ℕ) (infos : List (PreprocessorInfo Block)) (s : NestingState Block)
    → All (IsSaved line id) infos
    → IsState line id s
    → IsState line id (on_else infos s)
unfolding on_else see_else
on_else-IsState line id [] s saved h = h
on_else-IsState line id (info ∷ rest) s saved h = (
  saved.0.0,
  (
    if-both (IsSaved line id) info.seen_else info
        (record info { seen_else = true; stack_before_else = s.stack }) saved.0 (saved.0.0, h.0),
    saved.1,
  ),
)

on_endif-IsState :
    (line id : ℕ) (infos : List (PreprocessorInfo Block)) (s : NestingState Block)
    → All (IsSaved line id) infos
    → IsState line id s
    → IsState line id (on_endif infos s)
unfolding on_endif
on_endif-IsState line id [] s saved h = h
on_endif-IsState line id (info ∷ rest) s saved h =
    (if-both (IsStack line id) info.seen_else info.stack_before_else s.stack saved.0.1 h.0, saved.1)

-- `previous_stack_top` plays no part.
on_directive-IsState :
    (line id : ℕ) (d : Directive) (s : NestingState Block)
    → IsState line id s
    → IsState line id (on_directive d s)
unfolding on_directive preprocessor_info
on_directive-IsState line id begins s h = (h.0, ((h.0, tt), h.1))
on_directive-IsState line id alternates s h = on_else-IsState line id s.pp_stack s h.1 h
on_directive-IsState line id ends s h = on_endif-IsState line id s.pp_stack s h.1 h
on_directive-IsState line id other s h = h

copied-Kept :
    (line : ℕ) (stack : List Block) (bound id : ℕ)
    → IsStack line bound stack
    → IsStack line (copied stack id).next_id (copied stack id).stack
unfolding copied
copied-Kept line [] bound id h = tt
copied-Kept line (b ∷ bs) bound id h =
    (h.0, omega arith, copied-Kept b.starting_linenum bs b.id id h.2)

copied-le : (stack : List Block) (id : ℕ) → id ≤ (copied stack id).next_id
unfolding copied
copied-le [] id = omega arith
copied-le (b ∷ bs) id = omega (arith, copied-le bs id)

after_preprocessor-Kept :
    (copies : Bool) (line : ℕ) (stack : List Block) (id : ℕ)
    → IsStack line id stack
    → (id ≤ (after_preprocessor copies stack id).next_id)
      × IsStack line
          (after_preprocessor copies stack id).next_id
          (after_preprocessor copies stack id).stack
unfolding after_preprocessor
after_preprocessor-Kept true line stack id h = (copied-le stack id, copied-Kept line stack id id h)
after_preprocessor-Kept false line stack id h = (omega arith, h)

update-IsNesting :
    (clean : CleansedLines) (before line : ℕ) (n : Nesting)
    → before ≤ line
    → IsNesting before n
    → IsNesting line (update clean line n).0
unfolding update update_preprocessor
update-IsNesting clean before line n le (h, saved) =
    let text = get_or clean.elided line [] in
    let start : NestingState Block = record n.state { previous_stack_top = top_of n.state.stack } in
    let s = update_preprocessor text start in
    let (h1, saved1) = on_directive-IsState line n.next_id (directive_of text) start (
      IsStack-weaken before line n.next_id n.next_id _ le (omega arith) h,
      All-weaken before line n.next_id n.next_id _ le (omega arith) saved,
    ) in
    let copies = copies_stack (directive_of text) n.state.pp_stack in
    let blocks = after_preprocessor copies s.stack n.next_id in
    let h2 = after_preprocessor-Kept copies line s.stack n.next_id h1 in
    let h3 = update_blocks-Kept clean line text blocks h2.1 in
    (
      h3.1,
      All-weaken line line n.next_id _ s.pp_stack (omega arith) (omega (arith, h2.0, h3.0)) saved1,
    )

-- The loop of ProcessFileData, as far as this state is concerned: the first `count` lines in turn
abbrev pub updates : CleansedLines → ℕ → Nesting
updates clean zero = init_nesting
updates clean (suc count) = (update clean count (updates clean count)).0

updates-IsNesting : (clean : CleansedLines) (last : ℕ) → IsNesting last (updates clean (suc last))
unfolding init_nesting
updates-IsNesting clean zero = update-IsNesting clean zero zero init_nesting (omega arith) (tt, tt)
updates-IsNesting clean (suc last) =
    update-IsNesting clean last (suc last) (updates clean (suc last)) (omega arith)
      (updates-IsNesting clean last)

-- The lines of the reports do not go back, and stay within the bounds.
abbrev pub Between : ℕ → ℕ → List Diagnostic → Type 0
Between low high [] = low ≤ high
Between low high (d ∷ ds) = (low ≤ d.line) × Between d.line high ds

Between-weaken :
    (low high high' : ℕ) (ds : List Diagnostic)
    → high ≤ high'
    → Between low high ds
    → Between low high' ds
Between-weaken low high high' [] le h = omega arith
Between-weaken low high high' (d ∷ ds) le h = (h.0, Between-weaken d.line high high' ds le h.1)

Between-last :
    (low high : ℕ) (ds : List Diagnostic) (d : Diagnostic)
    → high ≤ d.line
    → Between low high ds
    → Between low d.line (ds ++ d ∷ [])
Between-last low high [] d le h = (omega arith, omega arith)
Between-last low high (e ∷ ds) d le h = (h.0, Between-last e.line high ds d le h.1)

-- At most one report, on the line on which the block began
incomplete-Between :
    (low high : ℕ) (b : Block) (ds : List Diagnostic)
    → b.starting_linenum ≤ high
    → Between low b.starting_linenum ds
    → Between low high (ds ++ incomplete b)
unfolding incomplete
incomplete-Between low high b ds le h =
    elim b.kind as (λ k. Between low high (ds ++ incomplete (record b { kind = k }))) [
      | generic_block ↦ without
      | extern_c_block ↦ without
      | class_block c ↦ with_report _ refl
      | namespace_block name ↦ with_report _ refl
    ]
  where
    without : Between low high (ds ++ [])
    without = rw (append-nil ds) (Between-weaken low b.starting_linenum high ds le h)

    with_report : (d : Diagnostic) → d.line ≡ b.starting_linenum → Between low high (ds ++ d ∷ [])
    with_report d same =
        Between-weaken low d.line high (ds ++ d ∷ []) (omega arith)
          (Between-last low b.starting_linenum ds d (omega arith) h)

completed-Between :
    (line id : ℕ) (bs : List Block)
    → IsStack line id bs
    → Between 0 line (check_completed_blocks bs)
unfolding check_completed_blocks
completed-Between line id [] h = omega arith
completed-Between line id (b ∷ bs) h =
    incomplete-Between 0 line b (check_completed_blocks bs) h.0
      (completed-Between b.starting_linenum b.id bs h.2)

-- After Update was called on the lines of a file from the first to line `last`, the blocks on the stack
-- and on every stack that an #if or #else saved are different objects, the later the nearer to the top,
-- and begin in this order on lines that were read. So the reports of CheckCompletedBlocks come in the
-- order of their lines, none of which is behind `last`.
pub completed_in_order :
    (clean : CleansedLines) (last : ℕ)
    → IsNesting last (updates clean (suc last))
      × Between 0 last (check_completed_blocks (updates clean (suc last)).state.stack)
completed_in_order clean last =
    let h = updates-IsNesting clean last in
    (
      h,
      completed-Between last (updates clean (suc last)).next_id
          (updates clean (suc last)).state.stack h.0,
    )
