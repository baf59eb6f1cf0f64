-- ===== src/Nesting/Tokens.antt =====
-- NestingState.Update of cpplint.py: the braces and semicolons of a line.
pub mod FirstToken
pub mod Scan
pub mod Balanced
use myframe.Common.{
  ℕ, zero, suc, ◌+◌, true, ◌||◌, none, some, List, [], ◌∷◌, ◌++◌, ◌==◌, if◌then◌else◌, get_or,
}
use myframe.Text.{Text, codes}
use myframe.Regex.{
  Regex, star, group, line_start, line_end, ◌&◌, group_text, match_pattern, matches,
}
use myframe.Regex.Classes.{char, literal, one_of, none_of, space, dot}
use myframe.Categories.{Diagnostic}
use myframe.Cleanse.Lines.{CleansedLines}
use myframe.Blocks.{block_asm, Block, block_info, extern_c_info}
use myframe.Blocks.Closing.{check_end}
use myframe.Nesting.Stack.{Blocks, push, change_top, pop, seen_open_brace, asm_pattern, open_brace}

-- `^[^{;)}]*([{;)}])(.*)$`
unfoldable pub token_pattern : Regex
token_pattern =
    line_start
    & star (none_of (codes "{;)}"))
    & group 1 (one_of (codes "{;)}"))
    & group 2 (star dot)
    & line_end

-- `^extern\s*"[^"]*"\s*\{`
unfoldable pub extern_c_pattern : Regex
extern_c_pattern =
    line_start
    & literal (codes "extern")
    & star space
    & char 34
    & star (none_of (34 ∷ []))
    & char 34
    & star space
    & char b'{'

-- The block that a `{` begins, where no namespace and no class waits for it
unfoldable pub new_block : Text → ℕ → ℕ → Block
unfolding extern_c_pattern asm_pattern extern_c_info block_info
new_block line linenum id =
    if matches extern_c_pattern line
    then extern_c_info id linenum
    else if matches asm_pattern line
    then record (block_info id linenum true) { inline_asm = block_asm }
    else block_info id linenum true

-- At a `{`
unfoldable pub on_open : Text → ℕ → Blocks → Blocks
unfolding seen_open_brace new_block
on_open line linenum s =
    if seen_open_brace s.stack
    then push (new_block line linenum) s
    else record s { stack = change_top (open_brace true) s.stack }

-- At a `;` or a `)`: a declaration, or an argument of a function
unfoldable pub on_end_of_declaration : Blocks → Blocks
unfolding seen_open_brace
on_end_of_declaration s = if seen_open_brace s.stack then s else record s { stack = pop s.stack }

-- At a `}`: the checks at the end of the innermost block, by the stack
unfoldable pub check_end_of_top : List Block → CleansedLines → ℕ → List Diagnostic
unfolding check_end
check_end_of_top [] clean linenum = []
check_end_of_top (b ∷ bs) clean linenum = check_end b clean linenum

unfoldable pub on_token : ℕ → Text → CleansedLines → ℕ → Blocks → Blocks × List Diagnostic
unfolding on_open on_end_of_declaration check_end_of_top
on_token token line clean linenum s =
    if token == b'{'
    then (on_open line linenum s, [])
    else if token == b';' || token == b')'
    then (on_end_of_declaration s, [])
    else (record s { stack = pop s.stack }, check_end_of_top s.stack clean linenum)

-- The loop over the braces and semicolons of what is left of the line, which gets shorter
unfoldable pub consume_tokens : ℕ → CleansedLines → ℕ → Text → Blocks → Blocks × List Diagnostic
unfolding token_pattern on_token
consume_tokens zero clean linenum line s = (s, [])
consume_tokens (suc fuel) clean linenum line s = elim (match_pattern token_pattern line) [
  | none ↦ (s, [])
  | some m ↦
      let (s', reports) = on_token (get_or (group_text 1 m) 0 0) line clean linenum s in
      let (s'', more) = consume_tokens fuel clean linenum (group_text 2 m) s' in
      (s'', reports ++ more)
]
