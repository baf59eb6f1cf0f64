-- ===== src/Includes/Seen.antt =====
-- FindHeader and ResetSection: which headers count as included, across #if and #else.
use myframe.Common.{
  ℕ, ◌≡◌, ◌≢◌, refl, ap, ◌∙◌, Bool, true, false, Option, none, some, List, [], ◌∷◌, ◌++◌, arith,
  ◌⊎◌, inl, inr, Bool-cases, if◌then◌else◌,
}
use myframe.Text.{Text, codes, text_eq, is_one_of, has_char, replace, lower}
use mathlib.Core.List.{append-nil, append_assoc}
use myframe.Text.Laws.{text_eq_sound, replace-absent, replace-removes, lower-lower, has_char-lower}
use myframe.Includes.{
  IncludeState, find_header, find_in_sections, find_in_section, add_include, reset_section,
  modify_last, canonicalize_alphabetical_order,
}
use myframe.Includes.Order.{IsValid}

abbrev pub or_else {ℓ} : {A : Type ℓ} → Option A → Option A → Option A
or_else none b = b
or_else (some a) b = some a

find_in_section-append :
    (h : Text) (xs ys : List (Text × ℕ))
    → find_in_section h (xs ++ ys) ≡ or_else (find_in_section h xs) (find_in_section h ys)
unfolding find_in_section
find_in_section-append h [] ys = refl
find_in_section-append h ((g, n) ∷ xs) ys = ground (arith, find_in_section-append h xs ys)

pub find_in_sections-append :
    (h : Text) (xs ys : List (List (Text × ℕ)))
    → find_in_sections h (xs ++ ys) ≡ or_else (find_in_sections h xs) (find_in_sections h ys)
unfolding find_in_sections
find_in_sections-append h [] ys = refl
find_in_sections-append h (x ∷ xs) ys = ground (arith, find_in_sections-append h xs ys)

pub find_in_sections-add :
    (h g : Text) (n : ℕ) (xs : List (List (Text × ℕ)))
    → xs ≢ []
    → find_in_sections h (modify_last (λ l. l ++ (g, n) ∷ []) xs)
      ≡ or_else (find_in_sections h xs) (if text_eq g h then some n else none)
unfolding find_in_sections modify_last find_in_section
find_in_sections-add h g n [] ne = absurd (ne refl)
find_in_sections-add h g n (x ∷ []) ne = ground (arith, find_in_section-append h x ((g, n) ∷ []))
find_in_sections-add h g n (x ∷ y ∷ xs) ne = ground (arith, find_in_sections-add h g n (y ∷ xs))

-- After an include is recorded, FindHeader answers for every other header as before, and for
-- this one with its first line: the earlier one if there was one, or else the new one.
pub find_header-add_include :
    (h g : Text) (n : ℕ) (s : IncludeState)
    → IsValid s
    → find_header h (add_include g n s)
      ≡ or_else (find_header h s) (if text_eq g h then some n else none)
unfolding find_header add_include
find_header-add_include h g n s v = find_in_sections-add h g n s.include_list v.listed

-- A line of a branch that begins no branch: a new #include, with its number, or the #endif of an
-- inner #if
pub data BranchLine : Type 0 where
  includes : Text → ℕ → BranchLine
  end_if : BranchLine

abbrev pub read_branch : List BranchLine → IncludeState → IncludeState
read_branch [] s = s
read_branch (includes g n ∷ ls) s = read_branch ls (add_include g n s)
read_branch (end_if ∷ ls) s = read_branch ls (reset_section (codes "endif") s)

abbrev included : List BranchLine → List (Text × ℕ)
included [] = []
included (includes g n ∷ ls) = (g, n) ∷ included ls
included (end_if ∷ ls) = included ls

modify_last-append {ℓ} :
    {A : Type ℓ} (f : A → A) (xs : List A) (x : A) → modify_last f (xs ++ x ∷ []) ≡ xs ++ f x ∷ []
unfolding modify_last
modify_last-append f [] x = refl
modify_last-append f (y ∷ []) x = refl
modify_last-append f (y ∷ z ∷ xs) x = ap (λ t. y ∷ t) (modify_last-append f (z ∷ xs) x)

reset_section-endif :
    (s : IncludeState) → (reset_section (codes "endif") s).include_list ≡ s.include_list
unfolding reset_section is_one_of text_eq
reset_section-endif s = refl

read_branch-include_list :
    (ls : List BranchLine) (outer : List (List (Text × ℕ))) (l : List (Text × ℕ)) (s : IncludeState)
    → s.include_list ≡ outer ++ l ∷ []
    → (read_branch ls s).include_list ≡ outer ++ (l ++ included ls) ∷ []
unfolding add_include
read_branch-include_list [] outer l s e = rw append-nil e
read_branch-include_list (includes g n ∷ ls) outer l s e =
    read_branch-include_list ls outer (l ++ (g, n) ∷ []) (add_include g n s)
      (ap (modify_last (λ l. l ++ (g, n) ∷ [])) e ∙ modify_last-append _ outer l)
    ∙ ap (λ t. outer ++ t ∷ []) (append_assoc l ((g, n) ∷ []) (included ls))
read_branch-include_list (end_if ∷ ls) outer l s e =
    read_branch-include_list ls outer l (reset_section (codes "endif") s)
      (reset_section-endif s ∙ e)

-- The directives that open a branch, and those that go over to the next one.
abbrev pub opens : Text → Bool
opens d = is_one_of d (codes "if" ∷ codes "ifdef" ∷ codes "ifndef" ∷ [])

abbrev pub switches : Text → Bool
switches d = is_one_of d (codes "else" ∷ codes "elif" ∷ [])

pub reset_section-opens :
    (d : Text) (s : IncludeState)
    → opens d ≡ true
    → (reset_section d s).include_list ≡ s.include_list ++ [] ∷ []
unfolding reset_section
reset_section-opens d s o = rw o

switches-cases : (d : Text) → switches d ≡ true → (d ≡ codes "else") ⊎ (d ≡ codes "elif")
unfolding is_one_of
switches-cases d h = elim (Bool-cases (text_eq d (codes "else"))) [
  | inl e ↦ inl (text_eq_sound d _ e)
  | inr ne ↦ inr (text_eq_sound d _ (ground arith))
]

reset_section-switches :
    (d : Text) (s : IncludeState)
    → switches d ≡ true
    → (reset_section d s).include_list ≡ modify_last (λ _. []) s.include_list
unfolding reset_section is_one_of text_eq
reset_section-switches d s h = elim (switches-cases d h) [ inl e ↦ rw e | inr e ↦ rw e ]

-- From an #if, #ifdef or #ifndef, over new includes and #endif lines only, to the next #else or #elif:
-- behind that, FindHeader answers for every header as it did before that #if. What was included between
-- them no longer counts, but where an inner #if and its #endif stand between the outer #if and its #else,
-- whatever the outer branch included before the inner #if still does.
pub find_header-next_branch :
    (h d e : Text) (ls : List BranchLine) (s : IncludeState)
    → opens d ≡ true
    → switches e ≡ true
    → find_header h (reset_section e (read_branch ls (reset_section d s))) ≡ find_header h s
unfolding find_header find_in_sections find_in_section
find_header-next_branch h d e ls s o w = rw (reset_section-switches e _ w) (
    rw
      (read_branch-include_list ls s.include_list [] (reset_section d s)
        (reset_section-opens d s o))
      (rw (modify_last-append {A = List (Text × ℕ)} (λ _. []) s.include_list (included ls))
        (ground (arith, find_in_sections-append h s.include_list ([] ∷ [])))))

pub modify_last-listed {ℓ} :
    {A : Type ℓ} (f : A → A) (xs : List A) → xs ≢ [] → modify_last f xs ≢ []
unfolding modify_last
modify_last-listed f [] ne = ne
modify_last-listed f (x ∷ []) ne = λ e. cc
modify_last-listed f (x ∷ y ∷ xs) ne = λ e. cc

reset_listed {ℓ} :
    {A : Type ℓ} (b c : Bool) (xs : List (List A))
    → xs ≢ []
    → (if b then xs ++ [] ∷ [] else if c then modify_last (λ _. []) xs else xs) ≢ []
reset_listed b c [] ne = absurd (ne refl)
reset_listed true c (x ∷ xs) ne = λ e. cc
reset_listed false true (x ∷ xs) ne = modify_last-listed _ (x ∷ xs) ne
reset_listed false false (x ∷ xs) ne = ne

-- Every directive, and every include, keeps the state valid.
pub reset_section-IsValid : (d : Text) (s : IncludeState) → IsValid s → IsValid (reset_section d s)
unfolding reset_section modify_last
reset_section-IsValid d s v = record {
  section_le = omega arith;
  listed = reset_listed _ _ s.include_list v.listed;
}

pub add_include-IsValid :
    (g : Text) (n : ℕ) (s : IncludeState) → IsValid s → IsValid (add_include g n s)
unfolding add_include
add_include-IsValid g n s v = record {
  section_le = v.section_le;
  listed = modify_last-listed _ s.include_list v.listed;
}

-- CanonicalizeAlphabeticalOrder applied twice is CanonicalizeAlphabeticalOrder applied once.
canonicalize_idem :
    (p : Text)
    → canonicalize_alphabetical_order (canonicalize_alphabetical_order p)
      ≡ canonicalize_alphabetical_order p
unfolding canonicalize_alphabetical_order
canonicalize_idem p =
    let q = replace (codes "-") (codes "_") (replace (codes "-inl.h") (codes ".h") p) in
    let absent : has_char (lower q) 45 ≡ false =
      has_char-lower q 45 (omega arith)
        (replace-removes 45 95 (replace (codes "-inl.h") (codes ".h") p) refl) in
    rw (replace-absent 45 (codes "inl.h") (codes ".h") (lower q) absent)
      (rw (replace-absent 45 [] (codes "_") (lower q) absent) (lower-lower q))
