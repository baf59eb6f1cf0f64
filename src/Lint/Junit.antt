-- ===== src/Lint/Junit.antt =====
-- FormatJUnitXML: the failures grouped by file. The element tree is kept as a record; what
-- xml.etree makes of it as text is a parameter.
use myframe.Common.{
  ℕ, ◌+◌, ◌≡◌, refl, sym, ap, ◌∙◌, false, Option, none, some, List, [], ◌∷◌, ◌++◌, ◌==◌,
  if◌then◌else◌, inl, inr, Bool-cases, length, map, arith, All,
}
use mathlib.Core.List.{append-nil, append_assoc}
use myframe.Text.{Text, codes, text_eq, decimal, join}
use myframe.Text.Laws.{text_eq_sound, text_eq_refl, text_eq-flip}
use myframe.Lint.{Failure, LintState}

-- failures_by_file, in the order of failed_file_order
abbrev pub Groups : Type 0
Groups = List (Text × List Failure)

-- One round of the loop that groups the failures
unfoldable pub add_failure : Failure → Groups → Groups
add_failure f [] = (f.filename, f ∷ []) ∷ []
add_failure f ((file, fs) ∷ gs) =
    if text_eq file f.filename then (file, fs ++ f ∷ []) ∷ gs else (file, fs) ∷ add_failure f gs

group_from : Groups → List Failure → Groups
group_from gs [] = gs
group_from gs (f ∷ fs) = group_from (add_failure f gs) fs

unfoldable pub group_failures : List Failure → Groups
unfolding group_from
group_failures = group_from []

-- A `testcase` element: its name, and the tag and the text of its child
pub record TestCase : Type 0 where
  pub name : Text
  pub child : Option (Text × Text)

-- The `testsuite` element
pub record TestSuite : Type 0 where
  pub errors : ℕ
  pub failures : ℕ
  pub tests : ℕ
  pub name : Text
  pub cases : List TestCase

-- '{0}: {1} [{2}] [{3}]'
unfoldable pub failure_text : Failure → Text
failure_text f =
    decimal f.line
    ++ (codes ": "
        ++ (f.message
            ++ (codes " ["
                ++ (f.category ++ (codes "] [" ++ (decimal f.confidence ++ codes "]"))))))

unfoldable pub file_case : Text × List Failure → TestCase
file_case (file, fs) = record {
  name = file;
  child = some (codes "failure", join (10 ∷ []) (map failure_text fs));
}

unfoldable pub error_cases : List Text → List TestCase
error_cases [] = []
error_cases (e ∷ es) =
    record { name = codes "errors"; child = some (codes "error", join (10 ∷ []) (e ∷ es)) } ∷ []

-- The element tree that FormatJUnitXML builds
unfoldable pub junit_suite : LintState → TestSuite
junit_suite s =
    let num_errors = length s.junit_errors in
    let num_failures = length s.junit_failures in
    let passed = num_errors + num_failures == 0 in
    record {
      errors = num_errors;
      failures = num_failures;
      tests = if passed then 1 else num_errors + num_failures;
      name = codes "cpplint";
      cases =
          if passed
          then record { name = codes "passed"; child = none } ∷ []
          else error_cases s.junit_errors ++ map file_case (group_failures s.junit_failures);
    }

-- FormatJUnitXML(), over xml.etree.ElementTree.tostring
unfoldable pub format_junit_xml : (TestSuite → Text) → LintState → Text
format_junit_xml to_string s =
    (codes "<?xml version=\"1.0\" encoding=\"UTF-8\" ?>" ++ 10 ∷ []) ++ to_string (junit_suite s)

-- The failures of one file, in order.
abbrev pub failures_of : Text → List Failure → List Failure
failures_of file [] = []
failures_of file (f ∷ fs) =
    if text_eq f.filename file then f ∷ failures_of file fs else failures_of file fs

abbrev pub group_of_file : Text → Groups → List Failure
group_of_file file [] = []
group_of_file file ((k, fs) ∷ gs) = if text_eq k file then fs else group_of_file file gs

group_of_file-add :
    (file : Text) (f : Failure) (gs : Groups)
    → group_of_file file (add_failure f gs) ≡ group_of_file file gs ++ failures_of file (f ∷ [])
unfolding add_failure
group_of_file-add file f [] = refl
group_of_file-add file f ((k, fs) ∷ gs) = ground (
  arith,
  group_of_file-add file f gs,
  text_eq_sound k f.filename,
  text_eq_sound k file,
  text_eq_sound f.filename file,
  text_eq_refl k,
  append-nil fs,
  append-nil (group_of_file file gs),
)

failures_of-append :
    (file : Text) (f : Failure) (fs : List Failure)
    → failures_of file (f ∷ fs) ≡ failures_of file (f ∷ []) ++ failures_of file fs
failures_of-append file f fs = ground arith

group_of_file-group_from :
    (file : Text) (gs : Groups) (fs : List Failure)
    → group_of_file file (group_from gs fs) ≡ group_of_file file gs ++ failures_of file fs
unfolding group_from
group_of_file-group_from file gs [] = sym (append-nil (group_of_file file gs))
group_of_file-group_from file gs (f ∷ fs) =
    group_of_file-group_from file (add_failure f gs) fs
    ∙ ap (λ l. l ++ failures_of file fs) (group_of_file-add file f gs)
    ∙ append_assoc (group_of_file file gs) (failures_of file (f ∷ [])) (failures_of file fs)
    ∙ ap (λ l. group_of_file file gs ++ l) (sym (failures_of-append file f fs))

-- No file has two groups.
abbrev pub Absent : Text → Groups → Type 0
Absent file gs = All (λ g. text_eq g.0 file ≡ false) gs

abbrev pub IsDistinct : Groups → Type 0
IsDistinct [] = Unit
IsDistinct ((k, fs) ∷ gs) = Absent k gs × IsDistinct gs

Absent-add :
    (file : Text) (f : Failure) (gs : Groups)
    → text_eq f.filename file ≡ false
    → Absent file gs
    → Absent file (add_failure f gs)
unfolding add_failure
Absent-add file f [] h a = (h, tt)
Absent-add file f ((k, fs) ∷ gs) h a = elim (Bool-cases (text_eq k f.filename)) [
  | inl e ↦ rw e a
  | inr e ↦ rw e (a.0, Absent-add file f gs h a.1)
]

IsDistinct-add : (f : Failure) (gs : Groups) → IsDistinct gs → IsDistinct (add_failure f gs)
unfolding add_failure
IsDistinct-add f [] d = (tt, tt)
IsDistinct-add f ((k, fs) ∷ gs) d = elim (Bool-cases (text_eq k f.filename)) [
  | inl e ↦ rw e d
  | inr e ↦ rw e (Absent-add k f gs (text_eq-flip k f.filename e) d.0, IsDistinct-add f gs d.1)
]

IsDistinct-group_from :
    (gs : Groups) (fs : List Failure) → IsDistinct gs → IsDistinct (group_from gs fs)
unfolding group_from
IsDistinct-group_from gs [] d = d
IsDistinct-group_from gs (f ∷ fs) d =
    IsDistinct-group_from (add_failure f gs) fs (IsDistinct-add f gs d)

-- The groups have one entry for a file at most, and the entry of a file holds its failures, all of
-- them and in the order in which they were reported.
pub group_failures_lem :
    (fs : List Failure)
    → IsDistinct (group_failures fs)
      × ((file : Text) → group_of_file file (group_failures fs) ≡ failures_of file fs)
unfolding group_failures
group_failures_lem fs =
    (IsDistinct-group_from [] fs tt, λ file. group_of_file-group_from file [] fs)
