-- ===== src/Regex/Classes.antt =====
-- The character classes and the derived forms of patterns.
use myframe.Common.{ℕ, not, ◌||◌, List, [], ◌∷◌, ◌==◌}
use myframe.Text.{Text, codes, has_char, is_space}
use myframe.Regex.{Regex, chr, eps, alt, star, word_boundary, ◌&◌, is_word}

-- one given character
abbrev pub char : ℕ → Regex
char c = chr (λ x. x == c)

-- a given text
abbrev pub literal : Text → Regex
literal [] = eps
literal (c ∷ []) = char c
literal (c ∷ d ∷ s) = char c & literal (d ∷ s)

-- `[...]` and `[^...]`
abbrev pub one_of : Text → Regex
one_of s = chr (λ x. has_char s x)

abbrev pub none_of : Text → Regex
none_of s = chr (λ x. not (has_char s x))

-- `.`: any character but a newline
abbrev pub dot : Regex
dot = chr (λ x. not (x == 10))

-- `\s`, `\S`, `\w`, `\W`
abbrev pub space : Regex
space = chr is_space

abbrev pub non_space : Regex
non_space = chr (λ x. not (is_space x))

abbrev pub word : Regex
word = chr is_word

abbrev pub non_word : Regex
non_word = chr (λ x. not (is_word x))

-- `[...\s]` and `[^...\s]`
abbrev pub one_of_or_space : Text → Regex
one_of_or_space s = chr (λ x. has_char s x || is_space x)

abbrev pub none_of_nor_space : Text → Regex
none_of_nor_space s = chr (λ x. not (has_char s x || is_space x))

-- `\d`, on the digits of ASCII
abbrev pub digit : Regex
digit = one_of (codes "0123456789")

-- `\b` word `\b`
abbrev pub whole_word : Text → Regex
whole_word t = word_boundary & literal t & word_boundary

-- `(?:a|b|...)` of texts
abbrev pub one_text : List Text → Regex
one_text [] = eps
one_text (t ∷ []) = literal t
one_text (t ∷ u ∷ ts) = alt (literal t) (one_text (u ∷ ts))

-- `r+`, `r?`
abbrev pub plus : Regex → Regex
plus r = r & star r

abbrev pub opt : Regex → Regex
opt r = alt r eps

-- `(?:a|b|...)`, of one text at least
abbrev pub alts : List Regex → Regex
alts [] = eps
alts (r ∷ []) = r
alts (r ∷ q ∷ rs) = alt r (alts (q ∷ rs))
