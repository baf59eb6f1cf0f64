-- ===== src/Nesting/Tokens/Balanced.antt =====
-- NestingState.Update of cpplint.py, on a line whose braces balance.
use myframe.Common.{
  ℕ, zero, suc, ◌≡◌, ◌⊎◌, refl, Bool, true, false, ◌||◌, List, [], ◌∷◌, ◌==◌, inl, inr, length,
  arith, Bool-cases, if-both,
}
use myframe.Text.{Text, has_char}
use myframe.Cleanse.Lines.{CleansedLines}
use myframe.Blocks.{Block, block_info, extern_c_info, block_asm}
use myframe.Blocks.Closing.{check_end}
use myframe.Regex.{matches}
use myframe.Nesting.Stack.{Blocks, asm_pattern, seen_open_brace, push}
use myframe.Nesting.Tokens.{
  extern_c_pattern, new_block, on_open, on_end_of_declaration, check_end_of_top, on_token,
  consume_tokens,
}
use myframe.Nesting.Tokens.FirstToken.{is_token}
use myframe.Nesting.Tokens.Scan.{scan, consume_tokens-scan}

-- The braces of the text balance, `depth` of them being open before it, and no `}` closes more.
abbrev pub balanced : ℕ → Text → Bool
balanced depth [] = depth == 0
balanced depth (c ∷ s) = elim (c == b'{') [
  | true ↦ balanced (suc depth) s
  | false ↦ elim (c == b'}') [
    | true ↦ elim depth [ zero ↦ false | suc outer ↦ balanced outer s ]
    | false ↦ balanced depth s
  ]
]

abbrev Step : ℕ → ℕ → Text → Type 0
Step depth c s =
    ((c ≡ b'{') × (balanced (suc depth) s ≡ true))
    ⊎ ((c ≡ b'}') × ((outer : ℕ) × (depth ≡ suc outer) × (balanced outer s ≡ true)))
    ⊎ (((c == b'{') ≡ false) × ((c == b'}') ≡ false) × (balanced depth s ≡ true))

equal : (a b : ℕ) → (a == b) ≡ true → a ≡ b
equal a b h = ground arith

balanced-Step : (depth c : ℕ) (s : Text) → balanced depth (c ∷ s) ≡ true → Step depth c s
balanced-Step depth c s h = elim (Bool-cases (c == b'{')) [
  | inl o ↦ inl (equal c b'{' o, rw (← h, balanced, o) refl)
  | inr o ↦ elim (Bool-cases (c == b'}')) [
    | inr e ↦ inr (inr (o, e, rw (← h, balanced, o, e) refl))
    | inl e ↦ inr (inl (equal c b'}' e, closed depth h o e))
  ]
]
  where
    bool : false ≡ true → ⊥
    bool h = cc

    closed :
        (depth : ℕ)
        → balanced depth (c ∷ s) ≡ true
        → (c == b'{') ≡ false
        → (c == b'}') ≡ true
        → (outer : ℕ) × (depth ≡ suc outer) × (balanced outer s ≡ true)
    closed zero h o e = absurd (bool (rw (← h, balanced, o, e) refl))
    closed (suc outer) h o e = (outer, refl, rw (← h, balanced, o, e) refl)

-- The brace of the block was seen and its end is not checked.
abbrev IsPlain : Block → Type 0
IsPlain b =
    (b.seen_open_brace ≡ true)
    × ((clean : CleansedLines) (linenum : ℕ) → check_end b clean linenum ≡ [])

-- The stack is `depth` such blocks above the base.
abbrev IsAbove : ℕ → List Block → List Block → Type 0
IsAbove zero base stack = stack ≡ base
IsAbove (suc depth) base [] = ⊥
IsAbove (suc depth) base (b ∷ bs) = IsPlain b × IsAbove depth base bs

new_block-IsPlain : (line : Text) (linenum id : ℕ) → IsPlain (new_block line linenum id)
unfolding new_block check_end block_info extern_c_info
new_block-IsPlain line linenum id =
    if-both IsPlain (matches extern_c_pattern line) (extern_c_info id linenum) _
      (refl, λ clean n. refl)
      (if-both IsPlain (matches asm_pattern line)
        (record (block_info id linenum true) { inline_asm = block_asm })
        (block_info id linenum true) (refl, λ clean n. refl) (refl, λ clean n. refl))

IsAbove-seen :
    (depth : ℕ) (base stack : List Block)
    → seen_open_brace base ≡ true
    → IsAbove depth base stack
    → seen_open_brace stack ≡ true
unfolding seen_open_brace
IsAbove-seen zero base stack seen above = rw above seen
IsAbove-seen (suc depth) base [] seen above = absurd above
IsAbove-seen (suc depth) base (b ∷ bs) seen above = above.0.0

module _ (clean : CleansedLines) (linenum : ℕ) (from : Text) (s : Blocks) where
  on_token-open :
      seen_open_brace s.stack ≡ true
      → on_token b'{' from clean linenum s ≡ (push (new_block from linenum) s, [])
  unfolding on_token on_open
  on_token-open seen = rw seen refl

  on_token-end :
      (c : ℕ)
      → (c == b'{') ≡ false
      → (c == b'}') ≡ false
      → is_token c ≡ true
      → seen_open_brace s.stack ≡ true
      → on_token c from clean linenum s ≡ (s, [])
  unfolding on_token on_end_of_declaration has_char
  on_token-end c o e t seen =
      let m : (c == b';' || c == b')') ≡ true = ground arith in rw (o, m, seen) refl

  on_token-close :
      (b : Block) (bs : List Block)
      → s.stack ≡ b ∷ bs
      → IsPlain b
      → on_token b'}' from clean linenum s ≡ (record s { stack = bs }, [])
  unfolding on_token check_end_of_top
  on_token-close b bs e plain = rw (e, plain.1 clean linenum) refl

top_of_IsAbove :
    (depth : ℕ) (base stack : List Block)
    → IsAbove (suc depth) base stack
    → (b : Block) × (bs : List Block) × (stack ≡ b ∷ bs) × IsPlain b × IsAbove depth base bs
top_of_IsAbove depth base [] above = absurd above
top_of_IsAbove depth base (b ∷ bs) above = (b, bs, refl, above.0, above.1)

-- What a scan with blocks above the base leads to.
abbrev Settles : CleansedLines → ℕ → Text → Text → Blocks → List Block → Type 0
Settles clean linenum from line s base =
    ((scan clean linenum from line s).0.stack ≡ base) × ((scan clean linenum from line s).1 ≡ [])

Settles-behind :
    (clean : CleansedLines) (linenum : ℕ) (from : Text) (c : ℕ) (line : Text) (s s' : Blocks)
    (base : List Block)
    → is_token c ≡ true
    → on_token c from clean linenum s ≡ (s', [])
    → Settles clean linenum line line s' base
    → Settles clean linenum from (c ∷ line) s base
Settles-behind clean linenum from c line s s' base t e h = rw (scan, t, e) h

scan_balanced :
    (clean : CleansedLines) (linenum : ℕ) (base : List Block)
    → seen_open_brace base ≡ true
    → (depth : ℕ) (from line : Text) (s : Blocks) → IsAbove depth base s.stack
    → balanced depth line ≡ true
    → Settles clean linenum from line s base
unfolding has_char
scan_balanced clean linenum base seen zero from [] s above h = (above, refl)
scan_balanced clean linenum base seen (suc depth) from [] s above h = absurd (ground arith)
scan_balanced clean linenum base seen depth from (c ∷ line) s above h =
    elim (balanced-Step depth c line h) [
      | inl (o, later) ↦
          Settles-behind clean linenum from c line s _ base (rw o refl)
            (rw o (on_token-open clean linenum from s (IsAbove-seen depth base s.stack seen above)))
            (scan_balanced clean linenum base seen (suc depth) line line
              (push (new_block from linenum) s) (new_block-IsPlain from linenum s.next_id, above)
              later)
      | inr (inl (e, (outer, deep, later))) ↦
          let (b, bs, split, plain, below) =
            top_of_IsAbove outer base s.stack (rw (← deep) above) in
          Settles-behind clean linenum from c line s _ base (rw e refl)
            (rw e (on_token-close clean linenum from s b bs split plain))
            (scan_balanced clean linenum base seen outer line line (record s { stack = bs }) below
              later)
      | inr (inr (o, e, later)) ↦ elim (Bool-cases (is_token c)) [
        | inl t ↦
            Settles-behind clean linenum from c line s s base t
              (on_token-end clean linenum from s c o e t
                (IsAbove-seen depth base s.stack seen above))
              (scan_balanced clean linenum base seen depth line line s above later)
        | inr f ↦ rw (scan, f) (scan_balanced clean linenum base seen depth from line s above later)
      ]
    ]

-- The loop of Update over the braces and semicolons, which is its last step: on what is left of a line,
-- without a newline and with braces that balance, it leaves the stack of blocks as it was and reports
-- nothing, if the opening brace of the innermost block has been seen before the loop.
pub consume_tokens-balanced :
    (clean : CleansedLines) (linenum : ℕ) (line : Text) (s : Blocks)
    → has_char line 10 ≡ false
    → seen_open_brace s.stack ≡ true
    → balanced 0 line ≡ true
    → ((consume_tokens (length line) clean linenum line s).0.stack ≡ s.stack)
      × ((consume_tokens (length line) clean linenum line s).1 ≡ [])
consume_tokens-balanced clean linenum line s newline seen h =
    rw (consume_tokens-scan clean linenum line s newline)
      (scan_balanced clean linenum s.stack seen 0 line line s refl h)
