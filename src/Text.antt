-- ===== src/Text.antt =====
-- Python's `str` as a list of code points, and the `str` methods that cpplint.py calls.
pub mod Laws
use Prim.Native.Char.{code}
use myframe.Common.{
  ℕ, zero, suc, ◌+◌, ◌-◌, ◌/◌, ◌%◌, String, Bool, true, false, ◌&&◌, ◌||◌, Option, none, some, List,
  [], ◌∷◌, ◌++◌, map, ltb, leb, ◌==◌, if◌then◌else◌, length, drop,
}

abbrev pub Text : Type 0
Text = List ℕ

-- The code points of a literal. `String` has its own `[]` and `∷`.
abbrev pub codes : String → Text
codes String.[] = []
codes (String.◌∷◌ c s) = code c ∷ codes s

-- s == t
unfoldable pub text_eq : Text → Text → Bool
text_eq [] [] = true
text_eq [] (d ∷ t) = false
text_eq (c ∷ s) [] = false
text_eq (c ∷ s) (d ∷ t) = c == d && text_eq s t

-- s < t, by code points from the left
unfoldable pub text_lt : Text → Text → Bool
text_lt s [] = false
text_lt [] (d ∷ t) = true
text_lt (c ∷ s) (d ∷ t) = ltb c d || (c == d && text_lt s t)

-- s.startswith(p)
unfoldable pub starts_with : Text → Text → Bool
starts_with s [] = true
starts_with [] (d ∷ p) = false
starts_with (c ∷ s) (d ∷ p) = c == d && starts_with s p

-- s.endswith(p)
unfoldable pub ends_with : Text → Text → Bool
unfolding text_eq
ends_with s p = leb (length p) (length s) && text_eq (drop (length s - length p) s) p

-- s in a list or set of texts
unfoldable pub is_one_of : Text → List Text → Bool
unfolding text_eq
is_one_of s [] = false
is_one_of s (t ∷ ts) = text_eq s t || is_one_of s ts

-- c in 'text'
unfoldable pub has_char : Text → ℕ → Bool
has_char [] c = false
has_char (d ∷ s) c = d == c || has_char s c

-- s.find(p), `none` for -1
unfoldable pub find : Text → Text → Option ℕ
unfolding starts_with
find [] p = if starts_with [] p then some 0 else none
find (c ∷ s) p =
    let later = find s p in
    if starts_with (c ∷ s) p then some 0 else elim later [ none ↦ none | some i ↦ some (suc i) ]

-- s.rfind(c), at one character, `none` for -1
unfoldable pub rfind : Text → ℕ → Option ℕ
rfind [] c = none
rfind (d ∷ s) c = elim (rfind s c) [
  | some i ↦ some (suc i)
  | none ↦ if d == c then some 0 else none
]

-- p in s
unfoldable pub has_text : Text → Text → Bool
unfolding find
has_text s p = elim (find s p) [ none ↦ false | some i ↦ true ]

-- The code points for which str.isspace() holds: what `\s` matches and strip() removes.
unfoldable pub is_space : ℕ → Bool
is_space c =
    (leb 9 c && leb c 13)
    || (leb 28 c && leb c 32)
    || (c == 0x85)
    || (c == 0xa0)
    || (c == 0x1680)
    || (leb 0x2000 c && leb c 0x200a)
    || (leb 0x2028 c && leb c 0x2029)
    || (c == 0x202f)
    || (c == 0x205f)
    || (c == 0x3000)

unfoldable pub lstrip : Text → Text
unfolding is_space
lstrip [] = []
lstrip (c ∷ s) = if is_space c then lstrip s else c ∷ s

-- A trailing space goes with all that follows it.
unfoldable pub rstrip : Text → Text
unfolding is_space
rstrip [] = []
rstrip (c ∷ s) = elim (rstrip s) [ [] ↦ (if is_space c then [] else c ∷ []) | d ∷ r ↦ c ∷ d ∷ r ]

unfoldable pub strip : Text → Text
unfolding lstrip rstrip
strip s = lstrip (rstrip s)

-- s.split(c), at a one-character separator: never the empty list
abbrev pub push_front : ℕ → List Text → List Text
push_front c [] = (c ∷ []) ∷ []
push_front c (t ∷ ts) = (c ∷ t) ∷ ts

unfoldable pub split : ℕ → Text → List Text
split sep [] = [] ∷ []
split sep (c ∷ s) = if c == sep then [] ∷ split sep s else push_front c (split sep s)

-- sep.join(ts)
unfoldable pub join : Text → List Text → Text
join sep [] = []
join sep (t ∷ []) = t
join sep (t ∷ u ∷ ts) = t ++ (sep ++ join sep (u ∷ ts))

-- s.replace(p, r) at a non-empty `p`: from the left, without overlaps. The first argument counts
-- the characters of an occurrence that are still to be skipped.
replace_from : ℕ → Text → Text → Text → Text
replace_from k p r [] = []
replace_from (suc k) p r (c ∷ s) = replace_from k p r s
replace_from zero p r (c ∷ s) =
    let skipped = replace_from (length p - 1) p r s in
    let kept = replace_from zero p r s in if starts_with (c ∷ s) p then r ++ skipped else c ∷ kept

unfoldable pub replace : Text → Text → Text → Text
unfolding replace_from starts_with
replace p r s = replace_from zero p r s

-- s.count(p) at a non-empty `p`, in the same way
count_from : ℕ → Text → Text → ℕ
count_from k p [] = 0
count_from (suc k) p (c ∷ s) = count_from k p s
count_from zero p (c ∷ s) =
    let skipped = count_from (length p - 1) p s in
    let kept = count_from zero p s in if starts_with (c ∷ s) p then suc skipped else kept

unfoldable pub count : Text → Text → ℕ
unfolding count_from starts_with
count p s = count_from zero p s

-- s.lower(), on the letters of ASCII
unfoldable pub lower_char : ℕ → ℕ
lower_char c = if leb b'A' c && leb c b'Z' then c + 32 else c

unfoldable pub lower : Text → Text
unfolding lower_char
lower = map lower_char

-- '%d' % n. A number below 10 ^ fuel is printed whole, and `n + 1` is enough for any `n`.
digits_of : ℕ → ℕ → Text → Text
digits_of zero n acc = acc
digits_of (suc fuel) n acc =
    let rest = digits_of fuel (n / 10) ((48 + n % 10) ∷ acc) in
    if ltb n 10 then (48 + n) ∷ acc else rest

unfoldable pub decimal : ℕ → Text
unfolding digits_of
decimal n = digits_of (n + 1) n []

-- s.split()[-1]: the last run of characters that are no spaces
abbrev pub unless_empty : Text → Text → Text
unless_empty [] last = last
unless_empty (c ∷ s) last = c ∷ s

words_from : Text → Text → Text → Text
unfolding is_space
words_from last current [] = unless_empty current last
words_from last current (c ∷ s) =
    let word = is_space c in
    words_from (if word then unless_empty current last else last)
      (if word then [] else current ++ c ∷ []) s

unfoldable pub last_word : Text → Text
unfolding words_from
last_word s = words_from [] [] s
