-- ===== src/Includes/Check/Duplicate.antt =====
-- CheckIncludeLine of cpplint.py on a header that is included twice.
use myframe.Common.{
  ◌≢◌, ℕ, ◌≡◌, refl, sym, ap, ◌∙◌, Bool, true, not, ◌||◌, none, some, List, [], ◌∷◌, ◌++◌, get_or,
  ◌>>=◌, >>=-eq-some, some_inj,
}
use mathlib.Core.Path.{subst}
use myframe.Text.{Text, codes, text_eq}
use myframe.Text.Laws.{text_eq_refl}
use myframe.Regex.{Found, group_text, search_pattern, matches}
use myframe.Categories.{Diagnostic}
use myframe.Cleanse.Lines.{CleansedLines, include_pattern}
use myframe.Options.{Options, get_header_extensions, get_non_header_extensions}
use myframe.Paths.{Os}
use myframe.Includes.{IncludeState, find_header, find_in_sections, add_include}
use myframe.Includes.Seen.{find_header-add_include}
use myframe.Includes.Order.{IsValid}
use myframe.Includes.Check.Later.{Later, check_order-include_list, find_header-Later}
use myframe.Includes.Check.{
  check_subdir, foreign_source, third_src_header, third_party_headers_pattern, check_order,
  check_new_include, duplicate, check_include, check_include_line,
}

module _ (os : Os) (o : Options) (filename : Text) (clean : CleansedLines) where
  -- The header was recorded.
  recorded :
      (linenum : ℕ) (include : Text) (angle own : Bool) (s s' : IncludeState) (ds : List Diagnostic)
      → IsValid s
      → find_header include s ≡ none
      → foreign_source os o filename include (get_non_header_extensions o) ≡ some none
      → third_src_header os o filename include (get_header_extensions o) ≡ some own
      → (own || not (matches third_party_headers_pattern include)) ≡ true
      → check_include os o filename clean linenum include angle s ≡ some (s', ds)
      → find_header include s' ≡ some linenum
  unfolding check_include check_new_include find_header
  recorded linenum include angle own s s' ds valid new plain by_name wanted e =
      let way : check_include os o filename clean linenum include angle s
          ≡ check_order os o filename clean linenum include angle (add_include include linenum s) =
        rw (check_include, new, check_new_include, plain, by_name, wanted) refl in
      ap (find_in_sections include) (
        check_order-include_list os o filename clean linenum include angle
          (add_include include linenum s) s' ds (sym way ∙ e))
      ∙ find_header-add_include include include linenum s valid
      ∙ rw (new, text_eq_refl include) refl

  repeated :
      (linenum line : ℕ) (include : Text) (angle : Bool) (s : IncludeState)
      → find_header include s ≡ some line
      → check_include os o filename clean linenum include angle s
        ≡ some (s, duplicate filename linenum include line ∷ [])
  unfolding check_include
  repeated linenum line include angle s found = rw (check_include, found) refl

  recorded-include_list :
      (linenum : ℕ) (include : Text) (angle own : Bool) (s s' : IncludeState) (ds : List Diagnostic)
      → IsValid s
      → find_header include s ≡ none
      → foreign_source os o filename include (get_non_header_extensions o) ≡ some none
      → third_src_header os o filename include (get_header_extensions o) ≡ some own
      → (own || not (matches third_party_headers_pattern include)) ≡ true
      → check_include os o filename clean linenum include angle s ≡ some (s', ds)
      → s'.include_list ≢ []
  unfolding find_header find_in_sections
  recorded-include_list linenum include angle own s s' ds valid new plain by_name wanted e empty =
      let found = recorded linenum include angle own s s' ds valid new plain by_name wanted e in
      absurd (nothing_found s'.include_list empty found)
    where
      nothing_found :
          (xs : List (List (Text × ℕ))) → xs ≡ [] → find_in_sections include xs ≡ some linenum → ⊥
      nothing_found [] empty found = cc
      nothing_found (x ∷ xs) empty found = cc

  -- If a line includes a header that was not included before, which is no source file of another
  -- directory, and which belongs to the file by its name or does not look like a third party's header,
  -- and the checks of the line end, and behind it come any lines whose checks end, and directives other
  -- than #else and #elif: then a line that includes the header is reported as a duplicate of the first,
  -- behind the check of its directory, and changes nothing.
  pub check_include_line-repeat :
      (first second : ℕ) (m n : Found) (own : Bool) (s s1 s' : IncludeState) (ds : List Diagnostic)
      → search_pattern include_pattern (get_or clean.lines first []) ≡ some m
      → search_pattern include_pattern (get_or clean.lines second []) ≡ some n
      → group_text 2 n ≡ group_text 2 m
      → IsValid s
      → find_header (group_text 2 m) s ≡ none
      → foreign_source os o filename (group_text 2 m) (get_non_header_extensions o) ≡ some none
      → third_src_header os o filename (group_text 2 m) (get_header_extensions o) ≡ some own
      → (own || not (matches third_party_headers_pattern (group_text 2 m))) ≡ true
      → check_include_line os o filename clean first s ≡ some (s1, ds)
      → Later os o filename clean s1 s'
      → check_include_line os o filename clean second s'
        ≡ some (
          s',
          check_subdir o (get_or clean.lines second []) second
              ++ duplicate filename second (group_text 2 m) first ∷ [],
        )
  unfolding check_include_line
  check_include_line-repeat first second m n own s s1 s' ds em en same valid new plain by_name
        wanted e later =
      let include = group_text 2 m in
      let angle = text_eq (group_text 1 m) (codes "<") in
      let subdir = check_subdir o (get_or clean.lines first []) first in
      let way : check_include_line os o filename clean first s ≡ (
          check_include os o filename clean first include angle s >>= λ out.
          some (out.0, subdir ++ out.1)) =
        rw (check_include_line, em) refl in
      let (out, e1, e2) =
        >>=-eq-some (check_include os o filename clean first include angle s) _ (sym way ∙ e) in
      let kept : out.0 ≡ s1 = ap (λ (x : IncludeState × List Diagnostic). x.0) (some_inj _ _ e2) in
      let found : find_header include s1 ≡ some first =
        ap (find_header include) (sym kept)
        ∙ recorded first include angle own s out.0 out.1 valid new plain by_name wanted e1 in
      let listed : s1.include_list ≢ [] =
        subst (λ (x : IncludeState). x.include_list ≢ []) kept
          (recorded-include_list first include angle own s out.0 out.1 valid new plain by_name
            wanted e1) in
      let still = find_header-Later os o filename clean include first s1 s' later listed found in
      rw (check_include_line, en, same)
        (rw (repeated second first include (text_eq (group_text 1 n) (codes "<")) s' still) refl)
