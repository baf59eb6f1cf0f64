-- ===== src/Driver/Holds.antt =====
-- ProcessFileData of cpplint.py: what each call of Error keeps of the lint state holds throughout.
use myframe.Common.{any, ◌||◌, ℕ, zero, suc, ◌≡◌, Option, none, some, List, [], ◌∷◌, ◌>>=◌, if-both}
use myframe.Text.{Text}
use myframe.Categories.{Diagnostic}
use myframe.Suppress.{Suppressions, parse_nolint_suppressions}
use myframe.Lint.{LintState, Console}
use myframe.Lint.Report.{report_error}
use myframe.Cleanse.Comments.{remove_multi_line_comments}
use myframe.Cleanse.Lines.{CleansedLines, cleansed_lines}
use myframe.HeaderGuard.{Action, parse_nolint, report}
use myframe.Nesting.Stack.{in_asm_block}
use myframe.Nesting.Update.{update}
use myframe.Options.{Options, is_header_extension, is_source_extension}
use myframe.Style.Ends.{check_style-some}
use myframe.Driver.{
  with_markers, Checks, Linting, report_all, parse_nolint_in, check_line, process_line,
  process_lines, run_actions, process_file_data, check_guard, check_header_included,
}
use myframe.Regex.{contains}
use myframe.HeaderGuard.{nolint_guard_pattern, pragma_pattern}
use myframe.Includes.{IncludeState}
use myframe.Nesting.Update.{Nesting}

-- What is known of the state behind a call of Error, and whether the call may fail
abbrev pub After : Type 0 → (LintState → Type 0) → Option (LintState × Console) → Type 0
After Fails I none = Fails
After Fails I (some w) = I w.0

unfoldable pub Holds : Type 0 → (LintState → Type 0) → Option Linting → Type 0
Holds Fails I none = Fails
Holds Fails I (some st) = I st.lint

-- Whether a check that is not modelled may fail
abbrev pub Ends {ℓ} : {A : Type ℓ} → Type 0 → Option A → Type 0
Ends Fails none = Fails
Ends Fails (some a) = Unit

-- What each check that is not modelled does
pub record AllEnd (Fails : Type 0) (checks : Checks) : Type 0 where
  pub guard_variable : (filename : Text) → Ends Fails (checks.guard_variable filename)
  pub language :
      (file_extension : Text) (clean : CleansedLines) (line : ℕ) (n : Nesting) (i : IncludeState)
      → Ends Fails (checks.language file_extension clean line n i)
  pub behind_language :
      (clean : CleansedLines) (line : ℕ) (n : Nesting)
      → Ends Fails (checks.behind_language clean line n)
  pub extra : (clean : CleansedLines) (line : ℕ) → Ends Fails (checks.extra clean line)
  pub what_you_use :
      (clean : CleansedLines) (i : IncludeState) → Ends Fails (checks.what_you_use clean i)
  pub header_included : (i : IncludeState) → Ends Fails (checks.header_included i)

module _ (Fails : Type 0) (I : LintState → Type 0)
    (keeps : (filename : Text) (sup : Suppressions) (d : Diagnostic) (s : LintState) (io : Console)
      → I s
      → After Fails I (report_error filename sup d (s, io))) where
  some-Holds : (st : Linting) → I st.lint → Holds Fails I (some st)
  unfolding Holds
  some-Holds st h = h

  Holds->>= :
      (m : Option Linting) (f : Linting → Option Linting)
      → Holds Fails I m
      → ((st : Linting) → I st.lint → Holds Fails I (f st))
      → Holds Fails I (m >>= f)
  unfolding Holds
  Holds->>= none f h k = h
  Holds->>= (some st) f h k = k st h

  Ends->>= {ℓ} :
      {A : Type ℓ} (m : Option A) (f : A → Option Linting)
      → Ends Fails m
      → ((a : A) → Holds Fails I (f a))
      → Holds Fails I (m >>= f)
  unfolding Holds
  Ends->>= none f h k = h
  Ends->>= (some a) f h k = k a

  After->>= :
      (m : Option (LintState × Console)) (f : LintState × Console → Option Linting)
      → After Fails I m
      → ((w : LintState × Console) → I w.0 → Holds Fails I (f w))
      → Holds Fails I (m >>= f)
  unfolding Holds
  After->>= none f h k = h
  After->>= (some w) f h k = k w h

  pub report_all-Holds :
      (filename : Text) (ds : List Diagnostic) (st : Linting)
      → I st.lint
      → Holds Fails I (report_all filename ds st)
  unfolding report_all
  report_all-Holds filename [] st h = some-Holds st h
  report_all-Holds filename (d ∷ ds) st h =
      After->>= _ _ (keeps filename st.suppressions d st.lint st.console h)
        (λ w h'. report_all-Holds filename ds (record st { lint = w.0; console = w.1 }) h')

  parse_nolint_in-Holds :
      (filename raw_line : Text) (linenum : ℕ) (st : Linting)
      → I st.lint
      → Holds Fails I (parse_nolint_in filename raw_line linenum st)
  unfolding parse_nolint_in
  parse_nolint_in-Holds filename raw_line linenum st h =
      let (sup, ds) = parse_nolint_suppressions raw_line linenum st.suppressions in
      report_all-Holds filename ds (record st { suppressions = sup }) h

  run_actions-Holds :
      (filename : Text) (actions : List Action) (st : Linting)
      → I st.lint
      → Holds Fails I (run_actions filename actions st)
  unfolding run_actions
  run_actions-Holds filename [] st h = some-Holds st h
  run_actions-Holds filename (report d ∷ rest) st h =
      Holds->>= _ _ (report_all-Holds filename (d ∷ []) st h)
        (λ st' h'. run_actions-Holds filename rest st' h')
  run_actions-Holds filename (parse_nolint raw_line linenum ∷ rest) st h =
      Holds->>= _ _ (parse_nolint_in-Holds filename raw_line linenum st h)
        (λ st' h'. run_actions-Holds filename rest st' h')

  -- A value that is there, and that a state does not depend on
  Holds->>=_found {ℓ} :
      {A : Type ℓ} (m : Option A) (f : A → Option Linting) {a : A}
      → m ≡ some a
      → Holds Fails I (f a)
      → Holds Fails I (m >>= f)
  Holds->>=_found m f e h = rw e h

  module _ (checks : Checks) (ends : AllEnd Fails checks) (o : Options)
      (filename file_extension : Text) (clean : CleansedLines) where
    check_line-Holds :
        (line : ℕ) (st : Linting)
        → I st.lint
        → Holds Fails I (check_line checks o filename file_extension clean line st)
    unfolding check_line
    check_line-Holds line st h = Holds->>= _ _ (report_all-Holds filename _ _ h) (λ st1 h1.
        Holds->>= _ _ (report_all-Holds filename _ st1 h1) (λ st2 h2.
          Ends->>= _ _
            (if-both (Ends Fails) (is_header_extension file_extension o) _ _
              (ends.guard_variable filename) tt)
            (λ cppvar.
              let (style, styled) =
                check_style-some checks.unicode o cppvar file_extension clean line st2.nesting in
              Holds->>=_found _ _ styled (
                Holds->>= _ _ (run_actions-Holds filename style st2 h2) (λ st3 h3.
                  Ends->>= _ _
                    (ends.language file_extension clean line st3.nesting st3.include_state)
                    (λ (i, language). Holds->>= _ _ (report_all-Holds filename _ _ h3) (λ st4 h4.
                      Ends->>= _ _ (ends.behind_language clean line st4.nesting) (λ behind.
                        Holds->>= _ _ (report_all-Holds filename _ st4 h4) (λ st5 h5.
                          Holds->>= _ _ (report_all-Holds filename _ st5 h5) (λ st6 h6.
                            Ends->>= _ _ (ends.extra clean line)
                              (λ extra. report_all-Holds filename _ st6 h6)))))))))))

    process_line-Holds :
        (line : ℕ) (st : Linting)
        → I st.lint
        → Holds Fails I (process_line checks o filename file_extension clean line st)
    unfolding process_line
    process_line-Holds line st h =
        Holds->>= _ _ (parse_nolint_in-Holds filename _ line st h) (λ st1 h1.
          let n = (update clean line st1.nesting).0 in
          Holds->>= _ _ (report_all-Holds filename _ (record st1 { nesting = n }) h1) (λ st2 h2.
            Holds->>= _ _ (report_all-Holds filename _ st2 h2) (λ st3 h3.
              if-both (Holds Fails I) (in_asm_block n.state.stack) (some st3) _ (some-Holds st3 h3)
                (check_line-Holds line st3 h3))))

    process_lines-Holds :
        (left line : ℕ) (st : Linting)
        → I st.lint
        → Holds Fails I (process_lines checks o filename file_extension clean left line st)
    unfolding process_lines
    process_lines-Holds zero line st h = some-Holds st h
    process_lines-Holds (suc left) line st h =
        Holds->>= _ _ (process_line-Holds line st h) (λ st1 h1.
          Holds->>= _ _ (report_all-Holds filename _ st1 h1)
            (λ st2 h2. process_lines-Holds left (suc line) st2 h2))

  check_guard-Holds :
      (checks : Checks) (filename : Text) (lines : List Text) (st : Linting)
      → AllEnd Fails checks
      → I st.lint
      → Holds Fails I (check_guard checks filename lines st)
  unfolding check_guard
  check_guard-Holds checks filename lines st ends h =
      Ends->>= _ _
        (if-both (Ends Fails)
          (any (contains nolint_guard_pattern) lines || any (contains pragma_pattern) lines) _ _ tt
          (ends.guard_variable filename))
        (λ cppvar. run_actions-Holds filename _ st h)

  check_header_included-Holds :
      (checks : Checks) (filename : Text) (st : Linting)
      → AllEnd Fails checks
      → I st.lint
      → Holds Fails I (check_header_included checks filename st)
  unfolding check_header_included
  check_header_included-Holds checks filename st ends h =
      Ends->>= _ _ (ends.header_included st.include_state)
        (λ reports. report_all-Holds filename reports st h)

  pub process_file_data-Holds :
      (checks : Checks) (o : Options) (filename file_extension : Text) (lines : List Text)
      (sup : Suppressions) (lint : LintState) (console : Console)
      → AllEnd Fails checks
      → I lint
      → Holds Fails I (process_file_data checks o filename file_extension lines sup lint console)
  unfolding process_file_data
  process_file_data-Holds checks o filename file_extension data_lines sup lint console ends h =
      let lines = with_markers data_lines in
      let bare = (remove_multi_line_comments lines).0 in
      let clean = cleansed_lines bare in
      Holds->>= _ _ (report_all-Holds filename _ _ h) (λ st1 h1.
        Holds->>= _ _ (report_all-Holds filename _ _ h1) (λ st3 h3.
          Holds->>= _ _
            (if-both (Holds Fails I) (is_header_extension file_extension o) _ _
              (check_guard-Holds checks filename _ st3 ends h3) (some-Holds st3 h3))
            (λ st4 h4.
              Holds->>= _ _
                (process_lines-Holds checks ends o filename file_extension clean clean.num_lines 0
                  st4 h4)
                (λ st5 h5. Holds->>= _ _ (report_all-Holds filename _ st5 h5) (λ st6 h6.
                  Ends->>= _ _ (ends.what_you_use clean st6.include_state) (λ wanted.
                    Holds->>= _ _ (report_all-Holds filename wanted st6 h6) (λ st7 h7.
                      Holds->>= _ _
                        (if-both (Holds Fails I) (is_source_extension file_extension o) _ _
                          (check_header_included-Holds checks filename st7 ends h7)
                          (some-Holds st7 h7))
                        (λ st8 h8.
                          Holds->>= _ _ (report_all-Holds filename _ st8 h8)
                            (λ st9 h9. report_all-Holds filename _ st9 h9)))))))))
