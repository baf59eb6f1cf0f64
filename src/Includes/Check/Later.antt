-- ===== src/Includes/Check/Later.antt =====
-- CheckIncludeLine and ResetSection of cpplint.py, line after line: a header that was included stays so.
use myframe.Common.{
  Option, ◌≢◌, false, Bool-cases, if-both, ℕ, ◌≡◌, refl, sym, ap, ◌∙◌, Bool, not, ◌||◌, none, some,
  List, [], ◌∷◌, ◌++◌, if◌then◌else◌, get_or, ◌>>=◌, >>=-eq-some, some_inj, inl, inr, Option-cases,
}
use mathlib.Core.Path.{subst}
use myframe.Text.{Text, codes, text_eq}
use myframe.Regex.{Found, group_text, search_pattern, matches}
use myframe.Categories.{Diagnostic}
use myframe.Cleanse.Lines.{CleansedLines, include_pattern}
use myframe.Options.{Options, get_header_extensions, get_non_header_extensions}
use myframe.Paths.{Os, base_name}
use myframe.Includes.{
  HeaderType, IncludeState, find_header, find_in_sections, add_include, reset_section, modify_last,
  check_next_include_order, next_section, set_last_header,
}
use myframe.Includes.Seen.{
  switches, opens, find_in_sections-append, find_in_sections-add, modify_last-listed,
}
use myframe.Blocks.{report}
use myframe.Includes.Classify.{classify_include}
use myframe.Includes.Check.{
  check_subdir, foreign_source, third_src_header, third_party_headers_pattern, check_order,
  check_new_include, duplicate, check_include, check_include_line,
}

-- Behind further lines: calls of CheckIncludeLine that end, and of ResetSection on directives other than
-- #else and #elif, from the first state to the second
pub data Later (os : Os) (o : Options) (filename : Text) (clean : CleansedLines)
    : IncludeState → IncludeState → Type 0 where
  here : (s : IncludeState) → Later os o filename clean s s
  include_line :
      (n : ℕ) (s s1 s2 : IncludeState) (ds : List Diagnostic)
      → check_include_line os o filename clean n s ≡ some (s1, ds)
      → Later os o filename clean s1 s2
      → Later os o filename clean s s2
  directive :
      (d : Text) (s s2 : IncludeState)
      → switches d ≡ false
      → Later os o filename clean (reset_section d s) s2
      → Later os o filename clean s s2

-- The header was first included on this line.
abbrev pub Lists : Text → ℕ → List (List (Text × ℕ)) → Type 0
Lists h n xs = (xs ≢ []) × (find_in_sections h xs ≡ some n)

add-Lists :
    (h g : Text) (n m : ℕ) (xs : List (List (Text × ℕ)))
    → Lists h n xs
    → Lists h n (modify_last (λ l. l ++ (g, m) ∷ []) xs)
add-Lists h g n m xs (ne, found) =
    (modify_last-listed _ xs ne, find_in_sections-add h g m xs ne ∙ rw found refl)

open-Lists :
    (h : Text) (n : ℕ) (xs : List (List (Text × ℕ))) → Lists h n xs → Lists h n (xs ++ [] ∷ [])
open-Lists h n [] (ne, found) = absurd (ne refl)
open-Lists h n (x ∷ xs) (ne, found) =
    ((λ e. cc), find_in_sections-append h (x ∷ xs) ([] ∷ []) ∙ rw found refl)

reset_section-Lists :
    (h : Text) (n : ℕ) (d : Text) (s : IncludeState)
    → switches d ≡ false
    → Lists h n s.include_list
    → Lists h n (reset_section d s).include_list
unfolding reset_section
reset_section-Lists h n d s plain l = elim (Bool-cases (opens d)) [
  | inl o ↦ rw o (open-Lists h n s.include_list l)
  | inr other ↦ rw (other, plain) l
]

order-include_list :
    (h : HeaderType) (s : IncludeState)
    → (check_next_include_order h s).0.include_list ≡ s.include_list
unfolding check_next_include_order
order-include_list h s = elim (Option-cases (next_section h s.section)) [
  | inl e ↦ rw (check_next_include_order, e) refl
  | inr (n, e) ↦ rw (check_next_include_order, e) refl
]

module _ (os : Os) (o : Options) (filename : Text) (clean : CleansedLines) where
  pub check_order-include_list :
      (linenum : ℕ) (include : Text) (angle : Bool) (s s' : IncludeState) (ds : List Diagnostic)
      → check_order os o filename clean linenum include angle s ≡ some (s', ds)
      → s'.include_list ≡ s.include_list
  unfolding check_order set_last_header
  check_order-include_list linenum include angle s s' ds e =
      let (h, _, e') = >>=-eq-some (classify_include os o filename include angle) _ e in
      let (base, _, e'') =
        >>=-eq-some
          (if text_eq (check_next_include_order h s).1 []
            then some []
            else base_name os o.repository filename)
          _ e' in
      ap (λ (out : IncludeState × List Diagnostic). out.0.include_list) (sym (some_inj _ _ e''))
      ∙ order-include_list h s

  -- What comes out of a check of an include lists the header, if what goes in does.
  abbrev Keeps : Text → ℕ → Option (IncludeState × List Diagnostic) → Type 0
  Keeps h n none = Unit
  Keeps h n (some (s, ds)) = Lists h n s.include_list

  check_order-Lists :
      (h : Text) (n linenum : ℕ) (include : Text) (angle : Bool) (s : IncludeState)
      → Lists h n s.include_list
      → Keeps h n (check_order os o filename clean linenum include angle s)
  check_order-Lists h n linenum include angle s l =
      by_result (check_order os o filename clean linenum include angle s)
        (check_order-include_list linenum include angle s)
    where
      by_result :
          (out : Option (IncludeState × List Diagnostic))
          → ((s' : IncludeState) (ds : List Diagnostic)
              → out ≡ some (s', ds)
              → s'.include_list ≡ s.include_list)
          → Keeps h n out
      by_result none same = tt
      by_result (some (s', ds)) same = rw (same s' ds refl) l

  check_new_include-Lists :
      (h : Text) (n linenum : ℕ) (include : Text) (angle : Bool) (s : IncludeState)
      → Lists h n s.include_list
      → Keeps h n (check_new_include os o filename clean linenum include angle s)
  unfolding check_new_include add_include
  check_new_include-Lists h n linenum include angle s l =
      by_source (foreign_source os o filename include (get_non_header_extensions o))
    where
      ordered : Option Bool → Option (IncludeState × List Diagnostic)
      ordered own = own >>= λ own.
          if own || not (matches third_party_headers_pattern include)
          then check_order os o filename clean linenum include angle (add_include include linenum s)
          else some (s, [])

      ordered-Lists : (own : Option Bool) → Keeps h n (ordered own)
      ordered-Lists none = tt
      ordered-Lists (some own) =
          if-both (Keeps h n) (own || not (matches third_party_headers_pattern include)) _ _
            (check_order-Lists h n linenum include angle (add_include include linenum s)
              (add-Lists h include n linenum s.include_list l))
            l

      by_source :
          (foreign : Option (Option Text))
          → Keeps h n (
              foreign >>= λ foreign.
              elim foreign as (λ _. Option (IncludeState × List Diagnostic)) [
                | some ext ↦ some (
                  s,
                  report linenum
                        (codes "build/include")
                        4
                        (codes "Do not include ." ++ (ext ++ codes " files from other packages"))
                      ∷ [],
                )
                | none ↦ ordered (third_src_header os o filename include (get_header_extensions o))
              ])
      by_source none = tt
      by_source (some (some ext)) = l
      by_source (some none) = ordered-Lists _

  check_include-Lists :
      (h : Text) (n linenum : ℕ) (include : Text) (angle : Bool) (s : IncludeState)
      → Lists h n s.include_list
      → Keeps h n (check_include os o filename clean linenum include angle s)
  unfolding check_include
  check_include-Lists h n linenum include angle s l = by_seen (find_header include s)
    where
      by_seen :
          (seen : Option ℕ)
          → Keeps h n (elim seen as (λ _. Option (IncludeState × List Diagnostic)) [
            | some line ↦ some (s, duplicate filename linenum include line ∷ [])
            | none ↦ check_new_include os o filename clean linenum include angle s
          ])
      by_seen none = check_new_include-Lists h n linenum include angle s l
      by_seen (some line) = l

  >>=-Keeps :
      (h : Text) (n : ℕ) (subdir : List Diagnostic) (out : Option (IncludeState × List Diagnostic))
      → Keeps h n out
      → Keeps h n (out >>= λ out. some (out.0, subdir ++ out.1))
  >>=-Keeps h n subdir none k = tt
  >>=-Keeps h n subdir (some (s, ds)) k = k

  check_include_line-Keeps :
      (h : Text) (n linenum : ℕ) (s : IncludeState)
      → Lists h n s.include_list
      → Keeps h n (check_include_line os o filename clean linenum s)
  unfolding check_include_line
  check_include_line-Keeps h n linenum s l =
      by_match (search_pattern include_pattern (get_or clean.lines linenum []))
    where
      subdir : List Diagnostic
      subdir = check_subdir o (get_or clean.lines linenum []) linenum

      by_match :
          (m : Option Found)
          → Keeps h n (elim m as (λ _. Option (IncludeState × List Diagnostic)) [
            | none ↦ some (s, subdir)
            | some m ↦
                (check_include os o filename clean linenum
                    (group_text 2 m)
                    (text_eq (group_text 1 m) (codes "<"))
                    s
                  >>= λ out. some (out.0, subdir ++ out.1))
          ])
      by_match none = l
      by_match (some m) = >>=-Keeps h n subdir _ (
          check_include-Lists h n linenum (group_text 2 m) (text_eq (group_text 1 m) (codes "<")) s
            l)

  -- Behind all of them the header is listed with the same line.
  Later-Lists :
      (h : Text) (n : ℕ) (s s' : IncludeState)
      → Later os o filename clean s s'
      → Lists h n s.include_list
      → Lists h n s'.include_list
  Later-Lists h n s s' (here _) l = l
  Later-Lists h n s s' (include_line m _ s1 _ ds e later) l =
      Later-Lists h n s1 s' later (subst (Keeps h n) e (check_include_line-Keeps h n m s l))
  Later-Lists h n s s' (directive d _ _ plain later) l =
      Later-Lists h n (reset_section d s) s' later (reset_section-Lists h n d s plain l)

  pub find_header-Later :
      (h : Text) (n : ℕ) (s s' : IncludeState)
      → Later os o filename clean s s'
      → s.include_list ≢ []
      → find_header h s ≡ some n
      → find_header h s' ≡ some n
  unfolding find_header
  find_header-Later h n s s' later ne found = (Later-Lists h n s s' later (ne, found)).1
