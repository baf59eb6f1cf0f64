-- ===== src/Nesting/Stack.antt =====
-- The stack of blocks of a NestingState of cpplint.py, with its top in front, what is asked of it, and
-- the parentheses that are counted on its top.
use myframe.Common.{ℕ, suc, Bool, true, false, not, ◌&&◌, List, [], ◌∷◌, if◌then◌else◌}
use myframe.Common.Int.{ℤ, sub_ℕ, ◌+ℤ◌}
use myframe.Text.{Text, codes, count}
use myframe.Regex.{Regex, alt, star, group, line_start, ◌&◌, matches}
use myframe.Regex.Classes.{literal, one_of, space, plus, opt, alts}
use myframe.Blocks.{
  AsmState, no_asm, inside_asm, end_asm, block_asm, Kind, extern_c_block, Block, is_namespace,
  is_class, is_number,
}

-- The blocks on the stack, with the identity that the next object gets
pub record Blocks : Type 0 where
  pub stack : List Block
  pub next_id : ℕ

abbrev pub push : (ℕ → Block) → Blocks → Blocks
push new s = record { stack = new s.next_id ∷ s.stack; next_id = suc s.next_id }

-- self.stack[-1] = f(self.stack[-1]), on a stack that is not empty
abbrev pub change_top : (Block → Block) → List Block → List Block
change_top f [] = []
change_top f (b ∷ bs) = f b ∷ bs

abbrev pub pop : List Block → List Block
pop [] = []
pop (b ∷ bs) = bs

abbrev top_is : (Kind → Bool) → List Block → Bool
top_is p [] = false
top_is p (b ∷ bs) = p b.kind

-- SeenOpenBrace()
unfoldable pub seen_open_brace : List Block → Bool
seen_open_brace [] = true
seen_open_brace (b ∷ bs) = b.seen_open_brace

-- InNamespaceBody(), InExternC(), InClassDeclaration() and InAsmBlock()
unfoldable pub in_namespace_body : List Block → Bool
in_namespace_body = top_is is_namespace

abbrev is_extern_c : Kind → Bool
is_extern_c extern_c_block = true
is_extern_c _ = false

unfoldable pub in_extern_c : List Block → Bool
in_extern_c = top_is is_extern_c

unfoldable pub in_class_declaration : List Block → Bool
in_class_declaration = top_is is_class

abbrev pub is_asm : AsmState → Bool
is_asm no_asm = false
is_asm _ = true

unfoldable pub in_asm_block : List Block → Bool
in_asm_block [] = false
in_asm_block (b ∷ bs) = is_asm b.inline_asm

-- `^\s*(?:asm|_asm|__asm|__asm__)(?:\s+(volatile|__volatile__))?\s*[{(]`
unfoldable pub asm_pattern : Regex
asm_pattern =
    line_start
    & star space
    & alts (
        literal (codes "asm")
        ∷ literal (codes "_asm")
        ∷ literal (codes "__asm")
        ∷ literal (codes "__asm__")
        ∷ [])
    & opt (plus space & group 1 (alt (literal (codes "volatile")) (literal (codes "__volatile__"))))
    & star space
    & one_of (codes "{(")

-- inline_asm behind a line on which `parentheses` are open; `enters` tells that an assembly block is
-- entered there
unfoldable pub next_asm : AsmState → Bool → ℤ → AsmState
next_asm no_asm enters parentheses = if enters then inside_asm else no_asm
next_asm end_asm enters parentheses = if enters then inside_asm else no_asm
next_asm inside_asm enters parentheses = if is_number 0 parentheses then end_asm else inside_asm
next_asm block_asm enters parentheses = block_asm

-- The parentheses of the line are counted on the innermost block.
unfoldable pub count_parentheses : Text → Block → Block
unfolding count ◌+ℤ◌ asm_pattern next_asm
count_parentheses line b =
    let depth_change = sub_ℕ (count (codes "(") line) (count (codes ")") line) in
    let parentheses = b.open_parentheses +ℤ depth_change in
    let enters =
      not (is_number 0 depth_change) && (is_number 1 parentheses && matches asm_pattern line) in
    record b {
      open_parentheses = parentheses;
      inline_asm = next_asm b.inline_asm enters parentheses;
    }

abbrev pub open_brace : Bool → Block → Block
open_brace seen b = record b { seen_open_brace = seen }
