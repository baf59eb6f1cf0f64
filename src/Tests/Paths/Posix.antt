-- ===== src/Tests/Paths/Posix.antt =====
-- os.path on paths with slashes, in a file system in which every path without an `s` is there.
use myframe.Common.{
  ℕ, ◌+◌, ◌≤◌, ◌<◌, ◌≡◌, inl, inr, refl, ap, Bool, true, false, not, ◌==◌, [], ◌∷◌, ◌++◌,
  if◌then◌else◌, length, drop, arith, Bool-cases,
}
use myframe.Text.{Text, codes, has_char}
use myframe.Paths.{Os}
use myframe.Paths.Ends.{ShortensPaths, HasPlainTop}

-- What stands before the last slash
abbrev before_slash : Text → Text
before_slash [] = []
before_slash (c ∷ s) = if has_char s b'/' then c ∷ before_slash s else []

abbrev behind_slash : Text → Text
behind_slash [] = []
behind_slash (c ∷ s) = if has_char (c ∷ s) b'/' then behind_slash s else c ∷ s

abbrev dirname : Text → Text
dirname [] = []
dirname (c ∷ s) =
    if has_char s b'/' then c ∷ before_slash s else if c == b'/' then codes "/" else []

-- Where the last dot stands
abbrev before_dot : Text → Text
before_dot [] = []
before_dot (c ∷ s) =
    if has_char s b'.' then c ∷ before_dot s else if c == b'.' then [] else c ∷ before_dot s

abbrev common : Text → Text → Text
common (c ∷ s) (d ∷ t) = if c == d then c ∷ common s t else []
common _ _ = []

abbrev join_path : Text → Text → Text
join_path dir name = dir ++ (b'/' ∷ name)

abbrev pub posix : Os
posix = record {
  abspath = λ p. p;
  dirname = dirname;
  normcase = λ p. p;
  normpath = λ p. p;
  relpath = λ p root. drop (length root + 1) p;
  commonprefix = common;
  join_path = join_path;
  split_path = λ p. (dirname p, behind_slash p);
  splitext = λ p. (before_dot p, drop (length (before_dot p)) p);
  exists = λ p. not (has_char p b's');
}

-- The same with a .svn everywhere
abbrev pub with_svn : Os
with_svn = record posix { exists = λ p. true }

pub posix-common : (p r : Text) → common p (p ++ r) ≡ p
posix-common [] [] = refl
posix-common [] (d ∷ r) = refl
posix-common (c ∷ p) r = ground (arith, posix-common p r)

before_slash-le : (s : Text) → length (before_slash s) ≤ length s
unfolding has_char
before_slash-le [] = omega arith
before_slash-le (c ∷ s) = ground (arith, before_slash-le s)

before_slash-lt : (c : ℕ) (s : Text) → length (before_slash (c ∷ s)) < length (c ∷ s)
unfolding has_char
before_slash-lt c [] = omega arith
before_slash-lt c (d ∷ s) = ground (arith, before_slash-lt d s)

pub posix-ShortensPaths : ShortensPaths posix
unfolding has_char
posix-ShortensPaths [] = inl refl
posix-ShortensPaths (c ∷ []) = elim (Bool-cases (c == b'/')) [
  | inl slash ↦ inl (rw slash (ap (λ d. d ∷ []) (equal b'/' c (ground arith))))
  | inr other ↦ inr (rw other (omega arith))
]
  where
    equal : (a b : ℕ) → (a == b) ≡ true → a ≡ b
    equal a b h = ground arith
posix-ShortensPaths (c ∷ d ∷ s) = elim (Bool-cases (has_char (d ∷ s) b'/')) [
  | inl below ↦ inr (rw below (omega (arith, before_slash-lt d s)))
  | inr last ↦ inr (rw last (short (c == b'/')))
]
  where
    short : (b : Bool) → length (if b then codes "/" else []) < length (c ∷ d ∷ s)
    short true = omega arith
    short false = omega arith

has_char-right : (s t : Text) (c : ℕ) → has_char t c ≡ true → has_char (s ++ t) c ≡ true
unfolding has_char
has_char-right [] t c h = h
has_char-right (d ∷ s) t c h = ground (arith, has_char-right s t c h)

pub posix-HasPlainTop : HasPlainTop posix
unfolding has_char
posix-HasPlainTop p top = rw (has_char-right p (codes "/.svn") b's' refl) refl
