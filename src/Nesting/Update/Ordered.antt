-- ===== src/Nesting/Update/Ordered.antt =====
-- NestingState of cpplint.py over the lines of a file: the order of the blocks on the stack.
use myframe.Common.{
  ℕ, zero, suc, ◌≤◌, ◌<◌, ◌≡◌, refl, true, List, [], ◌∷◌, inl, inr, length, not, ◌&&◌, ◌||◌, ◌==◌,
  get_or, arith, Bool-cases, if-both, Option-cases,
}
use myframe.Text.{Text}
use myframe.Regex.{group_of, group_text, match_pattern, matches}
use myframe.Categories.{Diagnostic}
use myframe.Cleanse.Lines.{CleansedLines}
use myframe.Blocks.{
  Block, block_asm, check_begin, block_info, class_info, namespace_info, extern_c_info,
}
use myframe.Nesting.Stack.{
  Blocks, seen_open_brace, asm_pattern, push, pop, change_top, open_brace, count_parentheses,
}
use myframe.Nesting.Templates.{in_template_argument_list}
use myframe.Nesting.Declarations.{
  namespace_pattern, behind_brace, consume_namespaces, class_pattern, no_parentheses, consume_class,
  begin_top, update_access,
}
use myframe.Nesting.Tokens.{
  extern_c_pattern, check_end_of_top, token_pattern, new_block, on_open, on_end_of_declaration,
  on_token, consume_tokens,
}
use myframe.Nesting.Update.{update_blocks}

-- From the top down, the blocks begin on earlier lines or on the same line, and are earlier objects.
abbrev pub IsStack : ℕ → ℕ → List Block → Type 0
IsStack line id [] = Unit
IsStack line id (b ∷ bs) =
    (b.starting_linenum ≤ line) × (b.id < id) × IsStack b.starting_linenum b.id bs

pub IsStack-weaken :
    (line line' id id' : ℕ) (bs : List Block)
    → line ≤ line'
    → id ≤ id'
    → IsStack line id bs
    → IsStack line' id' bs
IsStack-weaken line line' id id' [] l i h = tt
IsStack-weaken line line' id id' (b ∷ bs) l i h = (omega arith, omega arith, h.2)

pop-IsStack : (line id : ℕ) (bs : List Block) → IsStack line id bs → IsStack line id (pop bs)
pop-IsStack line id [] h = tt
pop-IsStack line id (b ∷ bs) h = IsStack-weaken _ line _ id bs h.0 (omega arith) h.2

change_top-IsStack :
    (line id : ℕ) (f : Block → Block) (bs : List Block)
    → ((b : Block) → ((f b).starting_linenum ≡ b.starting_linenum) × ((f b).id ≡ b.id))
    → IsStack line id bs
    → IsStack line id (change_top f bs)
change_top-IsStack line id f [] same h = tt
change_top-IsStack line id f (b ∷ bs) same h = rw ((same b).0, (same b).1) h

-- The blocks that come of other blocks: the invariant is kept and identities are not used again.
abbrev pub Kept : ℕ → Blocks → Blocks → Type 0
Kept line s s' = (s.next_id ≤ s'.next_id) × IsStack line s'.next_id s'.stack

Kept-trans : (line : ℕ) (s t u : Blocks) → Kept line s t → Kept line t u → Kept line s u
Kept-trans line s t u h k = (omega arith, k.1)

consume_namespaces-Kept :
    (fuel line : ℕ) (text : Text) (s : Blocks)
    → IsStack line s.next_id s.stack
    → Kept line s (consume_namespaces fuel line text s).1
unfolding consume_namespaces
consume_namespaces-Kept zero line text s h = (omega arith, h)
consume_namespaces-Kept (suc fuel) line text s h =
    elim (Option-cases (match_pattern namespace_pattern text)) [
      | inl e ↦ rw (consume_namespaces, e) (omega arith, h)
      | inr (m, e) ↦
          let (left, opened) = behind_brace (group_text 2 m) in
          let s' : Blocks =
            push (λ id. open_brace opened (namespace_info id (group_of 1 m) line)) s in
          let first : Kept line s s' = (omega arith, (omega arith, omega arith, h)) in
          rw (consume_namespaces, e)
            (Kept-trans line s s' _ first (consume_namespaces-Kept fuel line left s' first.1))
    ]

same-Kept : (line : ℕ) (s : Blocks) → IsStack line s.next_id s.stack → Kept line s s
same-Kept line s h = (omega arith, h)

consume_class-Kept :
    (clean : CleansedLines) (line : ℕ) (text : Text) (s : Blocks)
    → IsStack line s.next_id s.stack
    → Kept line s (consume_class clean line text s).1
unfolding consume_class class_info block_info
consume_class-Kept clean line text s h = elim (Option-cases (match_pattern class_pattern text)) [
  | inl e ↦ rw (consume_class, e) (omega arith, h)
  | inr (m, e) ↦
      elim (Bool-cases (
        no_parentheses s.stack
        && not (in_template_argument_list clean line (length (group_text 1 m))))) [
          | inl t ↦ rw (consume_class, e, t) (omega arith, (omega arith, omega arith, h))
          | inr f ↦ rw (consume_class, e, f) (omega arith, h)
        ]
]

begin_top-IsStack :
    (line id : ℕ) (text : Text) (bs : List Block)
    → IsStack line id bs
    → IsStack line id (begin_top text bs)
unfolding begin_top check_begin
begin_top-IsStack line id text bs h = elim (Bool-cases (seen_open_brace bs)) [
  | inl seen ↦ rw seen h
  | inr waits ↦ rw waits (change_top-IsStack line id (check_begin text) bs (λ b. (refl, refl)) h)
]

update_access-IsStack :
    (line id : ℕ) (text : Text) (n : ℕ) (bs : List Block)
    → IsStack line id bs
    → IsStack line id (update_access text n bs).0
unfolding update_access
update_access-IsStack line id text n [] h = tt
update_access-IsStack line id text n (b ∷ bs) h = h

abbrev IsPlaced : ℕ → ℕ → Block → Type 0
IsPlaced line id b = (b.starting_linenum ≡ line) × (b.id ≡ id)

new_block-IsPlaced : (text : Text) (line id : ℕ) → IsPlaced line id (new_block text line id)
unfolding new_block block_info extern_c_info
new_block-IsPlaced text line id =
    if-both (IsPlaced line id) (matches extern_c_pattern text) (extern_c_info id line) _
      (refl, refl)
      (if-both (IsPlaced line id) (matches asm_pattern text)
        (record (block_info id line true) { inline_asm = block_asm }) (block_info id line true)
        (refl, refl) (refl, refl))

pub push-Kept :
    (line : ℕ) (new : ℕ → Block) (s : Blocks)
    → IsPlaced line s.next_id (new s.next_id)
    → IsStack line s.next_id s.stack
    → Kept line s (push new s)
push-Kept line new s (l, i) h = (omega arith, (omega (arith, l), omega (arith, i), rw (l, i) h))

on_token-Kept :
    (token : ℕ) (text : Text) (clean : CleansedLines) (line : ℕ) (s : Blocks)
    → IsStack line s.next_id s.stack
    → Kept line s (on_token token text clean line s).0
unfolding on_token on_open on_end_of_declaration
on_token-Kept token text clean line s h =
    let opened =
      if-both (Kept line s) (seen_open_brace s.stack) (push (new_block text line) s)
        (record s { stack = change_top (open_brace true) s.stack })
        (push-Kept line (new_block text line) s (new_block-IsPlaced text line s.next_id) h)
        (
          omega arith,
          change_top-IsStack line s.next_id (open_brace true) s.stack (λ b. (refl, refl)) h,
        ) in
    let popped = pop-IsStack line s.next_id s.stack h in
    let ended =
      if-both (Kept line s) (seen_open_brace s.stack) s (record s { stack = pop s.stack })
        (omega arith, h) (omega arith, popped) in
    if-both (λ (out : Blocks × List Diagnostic). Kept line s out.0) (token == b'{')
      (on_open text line s, []) _ opened
      (if-both (λ (out : Blocks × List Diagnostic). Kept line s out.0)
        (token == b';' || token == b')') (on_end_of_declaration s, [])
        (record s { stack = pop s.stack }, check_end_of_top s.stack clean line) ended
        (omega arith, popped))

consume_tokens-Kept :
    (fuel : ℕ) (clean : CleansedLines) (line : ℕ) (text : Text) (s : Blocks)
    → IsStack line s.next_id s.stack
    → Kept line s (consume_tokens fuel clean line text s).0
unfolding consume_tokens
consume_tokens-Kept zero clean line text s h = (omega arith, h)
consume_tokens-Kept (suc fuel) clean line text s h =
    elim (Option-cases (match_pattern token_pattern text)) [
      | inl e ↦ rw (consume_tokens, e) (omega arith, h)
      | inr (m, e) ↦
          let s' = (on_token (get_or (group_text 1 m) 0 0) text clean line s).0 in
          let first : Kept line s s' =
            on_token-Kept (get_or (group_text 1 m) 0 0) text clean line s h in
          rw (consume_tokens, e)
            (Kept-trans line s s' _ first
              (consume_tokens-Kept fuel clean line (group_text 2 m) s' first.1))
    ]

pub update_blocks-Kept :
    (clean : CleansedLines) (line : ℕ) (text : Text) (s : Blocks)
    → IsStack line s.next_id s.stack
    → Kept line s (update_blocks clean line text s).0
unfolding update_blocks count_parentheses
update_blocks-Kept clean line text s h =
    let counted = record s { stack = change_top (count_parentheses text) s.stack } in
    let h0 : Kept line s counted = (
      omega arith,
      change_top-IsStack line s.next_id (count_parentheses text) s.stack (λ b. (refl, refl)) h,
    ) in
    let (text1, s1) = consume_namespaces (length text) line text counted in
    let h1 = consume_namespaces-Kept (length text) line text counted h0.1 in
    let (left, s2) = consume_class clean line text1 s1 in
    let h2 = consume_class-Kept clean line text1 s1 h1.1 in
    let stack = (update_access left line (begin_top text s2.stack)).0 in
    let h3 =
      update_access-IsStack line s2.next_id left line (begin_top text s2.stack)
        (begin_top-IsStack line s2.next_id text s2.stack h2.1) in
    let h4 = consume_tokens-Kept (length left) clean line left (record s2 { stack = stack }) h3 in
    (omega (arith, h1.0, h2.0, h4.0), h4.1)
