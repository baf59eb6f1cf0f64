-- ===== src/Nesting/Update.antt =====
-- NestingState.Update, InnermostClass and CheckCompletedBlocks of cpplint.py, and the check of the
-- indentation in a namespace.
pub mod Ordered
pub mod Completed
use myframe.Common.{
  ℕ, ◌+◌, Bool, true, false, not, ◌&&◌, ◌||◌, Option, none, some, List, [], ◌∷◌, ◌++◌, ◌==◌,
  if◌then◌else◌, length, get_or,
}
use myframe.Text.{Text, codes, find}
use myframe.Regex.{star, line_start, ◌&◌, matches}
use myframe.Regex.Classes.{space}
use myframe.Categories.{Diagnostic}
use myframe.Cleanse.Lines.{CleansedLines}
use myframe.Blocks.{ClassInfo, class_block, namespace_block, Block, is_namespace, report}
use myframe.Preprocessor.{
  NestingState, PreprocessorInfo, Directive, alternates, ends, directive_of, update_preprocessor,
}
use myframe.Nesting.Stack.{Blocks, push, change_top}
use myframe.FileChecks.{is_forward_class_declaration, is_macro_definition}
use myframe.Nesting.Stack.{count_parentheses}
use myframe.Nesting.Declarations.{consume_namespaces, consume_class, begin_top, update_access}
use myframe.Nesting.Tokens.{consume_tokens}

pub record Nesting : Type 0 where
  pub state : NestingState Block
  pub next_id : ℕ

-- NestingState()
unfoldable pub init_nesting : Nesting
init_nesting = record {
  state = record { stack = []; previous_stack_top = none; pp_stack = [] };
  next_id = 0;
}

abbrev pub top_of : List Block → Option Block
top_of [] = none
top_of (b ∷ bs) = some b

-- The directive puts copies of saved blocks on the stack.
abbrev pub copies_stack : Directive → List (PreprocessorInfo Block) → Bool
copies_stack alternates (info ∷ rest) = true
copies_stack ends (info ∷ rest) = info.seen_else
copies_stack _ _ = false

-- Each copy is another object.
unfoldable pub copied : List Block → ℕ → Blocks
copied [] next_id = record { stack = []; next_id = next_id }
copied (b ∷ bs) next_id = let below = copied bs next_id in push (λ id. record b { id = id }) below

-- The stack behind UpdatePreprocessor
unfoldable pub after_preprocessor : Bool → List Block → ℕ → Blocks
unfolding copied
after_preprocessor true stack next_id = copied stack next_id
after_preprocessor false stack next_id = record { stack = stack; next_id = next_id }

-- Behind UpdatePreprocessor: the blocks, the reports and the stack of the line
unfoldable pub update_blocks : CleansedLines → ℕ → Text → Blocks → Blocks × List Diagnostic
unfolding count_parentheses consume_namespaces consume_class begin_top update_access consume_tokens
update_blocks clean linenum line s =
    let counted = record s { stack = change_top (count_parentheses line) s.stack } in
    let (behind_namespaces, s1) = consume_namespaces (length line) linenum line counted in
    let (left, s2) = consume_class clean linenum behind_namespaces s1 in
    let (stack, reports) = update_access left linenum (begin_top line s2.stack) in
    let (s3, more) =
      consume_tokens (length left) clean linenum left (record s2 { stack = stack }) in
    (s3, reports ++ more)

-- Update(filename, clean_lines, linenum, error). Of `previous_stack_top` only the class and the
-- identity are read later.
unfoldable pub update : CleansedLines → ℕ → Nesting → Nesting × List Diagnostic
unfolding update_preprocessor directive_of after_preprocessor update_blocks
update clean linenum n =
    let line = get_or clean.elided linenum [] in
    let s =
      update_preprocessor line (record n.state { previous_stack_top = top_of n.state.stack }) in
    let copies = copies_stack (directive_of line) n.state.pp_stack in
    let (blocks, reports) =
      update_blocks clean linenum line (after_preprocessor copies s.stack n.next_id) in
    (record { state = record s { stack = blocks.stack }; next_id = blocks.next_id }, reports)

-- InnermostClass()
unfoldable pub innermost_class : List Block → Option ClassInfo
innermost_class [] = none
innermost_class (b ∷ bs) =
    let later = innermost_class bs in elim b.kind [ class_block c ↦ some c | _ ↦ later ]

-- What CheckCompletedBlocks reports of one block
unfoldable pub incomplete : Block → List Diagnostic
incomplete b = elim b.kind [
  | class_block c ↦
      report b.starting_linenum (codes "build/class") 5
        (codes "Failed to find complete declaration of class " ++ c.name)
      ∷ []
  | namespace_block name ↦
      report b.starting_linenum (codes "build/namespaces") 5
        (codes "Failed to find complete declaration of namespace " ++ name)
      ∷ []
  | _ ↦ []
]

-- CheckCompletedBlocks(filename, error), from the bottom of the stack
unfoldable pub check_completed_blocks : List Block → List Diagnostic
unfolding incomplete
check_completed_blocks [] = []
check_completed_blocks (b ∷ bs) = check_completed_blocks bs ++ incomplete b

-- IsBlockInNameSpace(nesting_state, is_forward_declaration)
unfoldable pub is_block_in_name_space : List Block → Bool → Bool
is_block_in_name_space [] is_forward_declaration = false
is_block_in_name_space (b ∷ []) is_forward_declaration =
    is_forward_declaration && is_namespace b.kind
is_block_in_name_space (b ∷ c ∷ bs) is_forward_declaration =
    if is_forward_declaration
    then is_namespace b.kind
    else b.check_namespace_indentation && is_namespace c.kind

-- ShouldCheckNamespaceIndentation
unfoldable pub should_check_namespace_indentation : List Block → Bool → List Text → ℕ → Bool
unfolding is_forward_class_declaration is_macro_definition is_block_in_name_space
should_check_namespace_indentation stack is_namespace_indent_item lines linenum =
    let is_forward_declaration = is_forward_class_declaration lines linenum in
    if not (is_namespace_indent_item || is_forward_declaration)
    then false
    else if is_macro_definition lines linenum
    then false
    else is_block_in_name_space stack is_forward_declaration

-- `^\s+`, and CheckItemIndentationInNamespace
unfoldable pub check_item_indentation_in_namespace : List Text → ℕ → List Diagnostic
check_item_indentation_in_namespace lines linenum =
    if matches (line_start & (space & star space)) (get_or lines linenum [])
    then report linenum (codes "runtime/indentation_namespace") 4
        (codes "Do not indent within a namespace")
      ∷ []
    else []

-- is_namespace_indent_item: the object below the top was on top before the line, and is a namespace.
unfoldable pub is_namespace_indent_item : List Block → Option Block → Bool
is_namespace_indent_item (b ∷ c ∷ bs) (some previous) =
    b.check_namespace_indentation && (is_namespace previous.kind && previous.id == c.id)
is_namespace_indent_item _ _ = false

-- CheckForNamespaceIndentation(filename, nesting_state, clean_lines, line, error)
unfoldable pub check_for_namespace_indentation : Nesting → CleansedLines → ℕ → List Diagnostic
unfolding is_namespace_indent_item should_check_namespace_indentation
    check_item_indentation_in_namespace
check_for_namespace_indentation n clean line =
    let item = is_namespace_indent_item n.state.stack n.state.previous_stack_top in
    if should_check_namespace_indentation n.state.stack item clean.elided line
    then check_item_indentation_in_namespace clean.elided line
    else []
