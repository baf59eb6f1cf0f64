-- ===== src/Nesting/Tokens/Scan.antt =====
-- The loop over the tokens of a line, against a scan of its characters.
use myframe.Common.{
  ℕ, zero, suc, ◌≤◌, ◌<◌, ◌≡◌, refl, ap, true, false, Option, none, some, List, [], ◌∷◌, ◌++◌, inl,
  inr, length, arith, Bool-cases,
}
use myframe.Text.{Text, has_char}
use myframe.Regex.{Found, match_pattern}
use myframe.Categories.{Diagnostic}
use myframe.Cleanse.Lines.{CleansedLines}
use myframe.Nesting.Stack.{Blocks}
use myframe.Nesting.Tokens.{token_pattern, on_token, consume_tokens}
use myframe.Nesting.Tokens.FirstToken.{
  is_token, first_token, first_token-rest, Matched, token_match,
}

-- The loop, character by character: `from` is what is left of the line behind the last token.
abbrev pub scan : CleansedLines → ℕ → Text → Text → Blocks → Blocks × List Diagnostic
scan clean linenum from [] s = (s, [])
scan clean linenum from (c ∷ rest) s = elim (is_token c) [
  | false ↦ scan clean linenum from rest s
  | true ↦
      let (s', reports) = on_token c from clean linenum s in
      let (s'', more) = scan clean linenum rest rest s' in (s'', reports ++ more)
]

-- What the scan does of the first token and behind it.
abbrev scan_first : CleansedLines → ℕ → Text → Option (ℕ × Text) → Blocks → Blocks × List Diagnostic
scan_first clean linenum from none s = (s, [])
scan_first clean linenum from (some (c, rest)) s =
    let (s', reports) = on_token c from clean linenum s in
    let (s'', more) = scan clean linenum rest rest s' in (s'', reports ++ more)

scan-first :
    (clean : CleansedLines) (linenum : ℕ) (from line : Text) (s : Blocks)
    → scan clean linenum from line s ≡ scan_first clean linenum from (first_token line) s
scan-first clean linenum from [] s = refl
scan-first clean linenum from (c ∷ line) s = elim (Bool-cases (is_token c)) [
  | inl t ↦ rw (t, scan) refl
  | inr f ↦ rw (f, scan) (scan-first clean linenum from line s)
]

consume_step :
    (fuel : ℕ) (clean : CleansedLines) (linenum : ℕ) (line : Text) (s : Blocks) (o : Option Found)
    → match_pattern token_pattern line ≡ o
    → Matched line o
    → ((rest : Text) (s' : Blocks)
        → length rest < length line
        → has_char rest 10 ≡ false
        → consume_tokens fuel clean linenum rest s' ≡ scan clean linenum rest rest s')
    → has_char line 10 ≡ false
    → consume_tokens (suc fuel) clean linenum line s ≡ scan clean linenum line line s
unfolding consume_tokens
consume_step fuel clean linenum line s none e m later h =
    rw (consume_tokens, e, scan-first clean linenum line line s, m) refl
consume_step fuel clean linenum line s (some f) e (c, rest, first, one, two) later h =
    rw (consume_tokens, e, scan-first clean linenum line line s, first, one, two)
      (let (s', reports) = on_token c line clean linenum s in
        let (short, no_newline) = first_token-rest line c rest first h in
        ap (λ (out : Blocks × List Diagnostic). (out.0, reports ++ out.1))
          (later rest s' short no_newline))

consume_from :
    (fuel : ℕ) (clean : CleansedLines) (linenum : ℕ) (line : Text) (s : Blocks)
    → length line ≤ fuel
    → has_char line 10 ≡ false
    → consume_tokens fuel clean linenum line s ≡ scan clean linenum line line s
unfolding consume_tokens
consume_from zero clean linenum [] s le h = refl
consume_from zero clean linenum (c ∷ line) s le h = absurd (omega arith)
consume_from (suc fuel) clean linenum line s le h =
    consume_step fuel clean linenum line s (match_pattern token_pattern line) refl
      (token_match line h)
      (λ rest s' lt h'. consume_from fuel clean linenum rest s' (omega arith) h') h

-- For a line without a newline, the loop of Update over the matches of `^[^{;)}]*([{;)}])(.*)$` does
-- what one pass over the characters does: at each `{`, `;`, `)` and `}` in turn it changes the blocks,
-- with the text behind the last of these in hand, and no other character counts. The characters of the
-- line are rounds enough.
pub consume_tokens-scan :
    (clean : CleansedLines) (linenum : ℕ) (line : Text) (s : Blocks)
    → has_char line 10 ≡ false
    → consume_tokens (length line) clean linenum line s ≡ scan clean linenum line line s
consume_tokens-scan clean linenum line s h =
    consume_from (length line) clean linenum line s (omega arith) h
