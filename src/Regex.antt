-- ===== src/Regex.antt =====
-- The regular expressions of Python's `re`, as far as cpplint.py writes them, and the functions
-- Match, Search and ReplaceAll of cpplint.py. A pattern is matched by backtracking: `run` lists the
-- ways to match in the order in which `re` tries them, so its first one is the match.
pub mod Meaning
pub mod Leftmost
pub mod Groups
pub mod Stars
pub mod Progress
pub mod Classes
use myframe.Common.{
  ℕ, zero, suc, ◌+◌, ◌-◌, Bool, true, false, not, ◌&&◌, ◌||◌, Option, none, some, List, [], ◌∷◌,
  ◌++◌, ltb, ◌==◌, if◌then◌else◌, length, take,
}
use myframe.Text.{Text}

pub data Regex : Type 0 where
  -- one character of a class
  chr : (ℕ → Bool) → Regex
  eps : Regex
  seq alt : Regex → Regex → Regex
  -- `*`, `*?`
  star lazy_star : Regex → Regex
  -- a numbered group
  group : ℕ → Regex → Regex
  -- `^`, `$`, `\b`
  line_start line_end word_boundary : Regex
  -- `(?=r)`, `(?!r)`
  ahead not_ahead : Regex → Regex

infixr 20 ◌&◌
abbrev pub ◌&◌ : Regex → Regex → Regex
◌&◌ = seq

-- A place in the text: what stands before it, the nearest character first, what is left, and the
-- texts of the groups that were matched on the way, the latest first.
pub record Cursor : Type 0 where
  pub before : Text
  pub rest : Text
  pub groups : List (ℕ × Text)

abbrev pub is_word : ℕ → Bool
is_word c =
    (not (ltb c b'a') && not (ltb b'z' c))
    || (not (ltb c b'A') && not (ltb b'Z' c))
    || (not (ltb c b'0') && not (ltb b'9' c))
    || (c == b'_')

abbrev pub head_is_word : Text → Bool
head_is_word [] = false
head_is_word (c ∷ s) = is_word c

-- `\b`: a word begins or ends here
unfoldable pub at_boundary : Cursor → Bool
at_boundary c = if head_is_word c.before then not (head_is_word c.rest) else head_is_word c.rest

-- `$`: the end of the text, or before a newline that ends it
unfoldable pub at_end : Text → Bool
at_end [] = true
at_end (c ∷ []) = c == 10
at_end (c ∷ d ∷ s) = false

unfoldable pub is_nil {ℓ} : {A : Type ℓ} → List A → Bool
is_nil [] = true
is_nil (x ∷ xs) = false

unfoldable pub step_char : (ℕ → Bool) → Cursor → Text → List Cursor
step_char p c [] = []
step_char p c (x ∷ s) = if p x then record c { before = x ∷ c.before; rest = s } ∷ [] else []

unfoldable pub flat_map {ℓ κ} : {A : Type ℓ} {B : Type κ} → (A → List B) → List A → List B
flat_map f [] = []
flat_map f (x ∷ xs) = f x ++ flat_map f xs

-- A round that consumes nothing is not repeated.
abbrev pub progress : Cursor → Cursor → Bool
progress c d = ltb (length d.rest) (length c.rest)

-- One more round has been made, from `c` to `d`.
abbrev pub onward : (Cursor → List Cursor) → Cursor → Cursor → List Cursor
onward k c d = elim (progress c d) [ true ↦ k d | false ↦ [] ]

unfoldable pub repeat : (Cursor → List Cursor) → ℕ → Cursor → List Cursor
unfolding flat_map
repeat f zero c = c ∷ []
repeat f (suc n) c = flat_map (onward (repeat f n) c) (f c) ++ c ∷ []

unfoldable pub repeat_lazy : (Cursor → List Cursor) → ℕ → Cursor → List Cursor
unfolding flat_map
repeat_lazy f zero c = c ∷ []
repeat_lazy f (suc n) c = c ∷ flat_map (onward (repeat_lazy f n) c) (f c)

-- What was consumed between two places of one text.
abbrev pub consumed : Cursor → Cursor → Text
consumed c d = take (length c.rest - length d.rest) c.rest

unfoldable pub capture : ℕ → Cursor → Cursor → Cursor
capture n c d = record d { groups = (n, consumed c d) ∷ d.groups }

-- Each round of a repetition consumes a character, so the characters left are rounds enough.
unfoldable pub run : Regex → Cursor → List Cursor
unfolding step_char repeat repeat_lazy flat_map at_boundary at_end is_nil capture
run (chr p) c = step_char p c c.rest
run eps c = c ∷ []
run (seq r q) c = flat_map (λ d. run q d) (run r c)
run (alt r q) c = run r c ++ run q c
run (star r) c = repeat (λ d. run r d) (length c.rest) c
run (lazy_star r) c = repeat_lazy (λ d. run r d) (length c.rest) c
run (group n r) c = flat_map (λ d. capture n c d ∷ []) (run r c)
run line_start c = if is_nil c.before then c ∷ [] else []
run line_end c = if at_end c.rest then c ∷ [] else []
run word_boundary c = if at_boundary c then c ∷ [] else []
run (ahead r) c = if is_nil (run r c) then [] else c ∷ []
run (not_ahead r) c = if is_nil (run r c) then c ∷ [] else []

abbrev pub start : Text → Cursor
start s = record { before = []; rest = s; groups = [] }

-- A match: where it begins, what it matched, what follows it and its groups.
pub record Found : Type 0 where
  pub at : ℕ
  pub text : Text
  pub rest : Text
  pub groups : List (ℕ × Text)

abbrev pub lookup_group : ℕ → List (ℕ × Text) → Option Text
lookup_group n [] = none
lookup_group n ((k, t) ∷ gs) = if k == n then some t else lookup_group n gs

-- match.group(n), `none` for a group that took no part
abbrev pub group_of : ℕ → Found → Option Text
group_of n m = lookup_group n m.groups

abbrev pub group_text : ℕ → Found → Text
group_text n m = elim (group_of n m) [ none ↦ [] | some t ↦ t ]

unfoldable pub first_found : ℕ → Cursor → List Cursor → Option Found
first_found at c [] = none
first_found at c (d ∷ ds) =
    some (record { at = at; text = consumed c d; rest = d.rest; groups = d.groups })

-- Match(pattern, s)
unfoldable pub match_pattern : Regex → Text → Option Found
unfolding run first_found
match_pattern r s = first_found 0 (start s) (run r (start s))

unfoldable pub search_from : Regex → ℕ → Text → Text → Option Found
unfolding run first_found
search_from r at before [] =
    let c : Cursor = record { before = before; rest = []; groups = [] } in
    first_found at c (run r c)
search_from r at before (x ∷ s) =
    let c : Cursor = record { before = before; rest = x ∷ s; groups = [] } in
    let later = search_from r (suc at) (x ∷ before) s in
    elim (first_found at c (run r c)) [ none ↦ later | some m ↦ some m ]

-- Search(pattern, s): the leftmost match
unfoldable pub search_pattern : Regex → Text → Option Found
unfolding search_from
search_pattern r s = search_from r 0 [] s

abbrev pub is_some {ℓ} : {A : Type ℓ} → Option A → Bool
is_some none = false
is_some (some a) = true

-- The truth of Match(pattern, s) and Search(pattern, s) as conditions
abbrev pub matches : Regex → Text → Bool
matches r s = is_some (match_pattern r s)

abbrev pub contains : Regex → Text → Bool
contains r s = is_some (search_pattern r s)

-- pattern.sub(rep, s), where no match is empty: the first argument counts the characters of a match
-- that are still to be skipped.
replace_matches : Regex → Text → ℕ → Text → Text → Text
unfolding run
replace_matches r rep k before [] = []
replace_matches r rep (suc k) before (x ∷ s) = replace_matches r rep k (x ∷ before) s
replace_matches r rep zero before (x ∷ s) =
    let c : Cursor = record { before = before; rest = x ∷ s; groups = [] } in
    let rest = λ (k : ℕ). replace_matches r rep k (x ∷ before) s in
    elim (run r c) [ [] ↦ x ∷ rest 0 | d ∷ ds ↦ rep ++ rest (length (consumed c d) - 1) ]

-- ReplaceAll(pattern, rep, s)
unfoldable pub replace_all : Regex → Text → Text → Text
unfolding replace_matches
replace_all r rep s = replace_matches r rep 0 [] s
