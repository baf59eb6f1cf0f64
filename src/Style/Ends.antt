-- ===== src/Style/Ends.antt =====
-- CheckStyle of cpplint.py returns.
use myframe.Common.{ℕ, ◌≡◌, some, List}
use myframe.Text.{Text}
use myframe.Cleanse.Lines.{CleansedLines}
use myframe.HeaderGuard.{Action}
use myframe.Nesting.Update.{Nesting}
use myframe.Options.{Options}
use myframe.Style.Layout.{Unicode}
use myframe.Style.Operators.Hidden.{bind-some, check_operator_spacing-some}
use myframe.Style.{check_style}

-- CheckStyle ends and reports, on every line of every file, without an exception.
pub check_style-some :
    (u : Unicode) (o : Options) (cppvar file_extension : Text) (clean : CleansedLines) (linenum : ℕ)
    (nesting : Nesting)
    → (actions : List Action) × (check_style u o cppvar file_extension clean linenum nesting
        ≡ some actions)
unfolding check_style
check_style-some u o cppvar file_extension clean linenum nesting =
    let (operators, e) = check_operator_spacing-some clean.elided linenum in bind-some _ _ e
