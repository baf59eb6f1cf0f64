-- ===== src/Nesting/Declarations.antt =====
-- NestingState.Update of cpplint.py: the namespaces and the class that begin in a line, and the access
-- keywords.
use myframe.Common.{
  ℕ, zero, suc, ◌+◌, Bool, true, false, not, ◌&&◌, ◌||◌, none, some, List, [], ◌∷◌, ◌++◌, ◌==◌,
  if◌then◌else◌, length, drop,
}
use myframe.Text.{Text, codes, find}
use myframe.Regex.{
  Regex, alt, star, group, line_start, line_end, word_boundary, ◌&◌, Found, group_of, group_text,
  match_pattern, matches,
}
use myframe.Regex.Classes.{char, literal, one_of, none_of, space, word, dot, plus, opt, alts}
use myframe.Categories.{Diagnostic}
use myframe.Cleanse.Lines.{CleansedLines}
use myframe.Blocks.{
  ClassInfo, Kind, class_block, Block, is_number, class_info, namespace_info, check_begin, report,
}
use myframe.Blocks.Closing.{parent_name, only_space_pattern}
use myframe.Nesting.Stack.{Blocks, push, change_top, seen_open_brace, open_brace}
use myframe.Nesting.Templates.{in_template_argument_list}

-- `^\s*namespace\b\s*([:\w]+)?(.*)$`
unfoldable pub namespace_pattern : Regex
namespace_pattern =
    line_start
    & star space
    & literal (codes "namespace")
    & word_boundary
    & star space
    & opt (group 1 (plus (alt (char b':') word)))
    & group 2 (star dot)
    & line_end

-- What is left of the line behind the first `{`, and whether there is one
abbrev pub behind_brace : Text → Text × Bool
behind_brace line = elim (find line (codes "{")) [
  | none ↦ (line, false)
  | some i ↦ (drop (i + 1) line, true)
]

-- The loop over the namespaces that begin in the line, each of which leaves a shorter line
unfoldable pub consume_namespaces : ℕ → ℕ → Text → Blocks → Text × Blocks
unfolding namespace_pattern namespace_info find
consume_namespaces zero linenum line s = (line, s)
consume_namespaces (suc fuel) linenum line s = elim (match_pattern namespace_pattern line) [
  | none ↦ (line, s)
  | some m ↦
      let (line', opened) = behind_brace (group_text 2 m) in
      consume_namespaces fuel linenum line'
        (push (λ id. open_brace opened (namespace_info id (group_of 1 m) linenum)) s)
]

-- `^(\s*(?:template\s*<[\w\s<>,:=]*>\s*)?(class|struct)\s+(?:[a-zA-Z0-9_]+\s+)*(\w+(?:::\w+)*))(.*)$`
unfoldable pub class_pattern : Regex
class_pattern =
    line_start
    & group 1 (
        star space
        & opt (
            literal (codes "template")
            & star space
            & char b'<'
            & star (alts (word ∷ space ∷ one_of (codes "<>,:=") ∷ []))
            & char b'>'
            & star space)
        & group 2 (alt (literal (codes "class")) (literal (codes "struct")))
        & plus space
        & star (plus word & plus space)
        & group 3 (plus word & star (literal (codes "::") & plus word)))
    & group 4 (star dot)
    & line_end

abbrev pub no_parentheses : List Block → Bool
no_parentheses [] = true
no_parentheses (b ∷ bs) = is_number 0 b.open_parentheses

-- A class that begins in what is left of the line
unfoldable pub consume_class : CleansedLines → ℕ → Text → Blocks → Text × Blocks
unfolding class_pattern class_info in_template_argument_list
consume_class clean linenum line s = elim (match_pattern class_pattern line) [
  | none ↦ (line, s)
  | some m ↦
      if no_parentheses s.stack
        && not (in_template_argument_list clean linenum (length (group_text 1 m)))
      then (
        group_text 4 m,
        push (λ id. class_info id (group_text 3 m) (group_text 2 m) clean linenum) s,
      )
      else (line, s)
]

-- If the innermost block still waits for its brace, its CheckBegin is run.
unfoldable pub begin_top : Text → List Block → List Block
unfolding seen_open_brace check_begin
begin_top line stack = if seen_open_brace stack then stack else change_top (check_begin line) stack

-- `^(.*)\b(public|private|protected|signals)(\s+(?:slots\s*)?)?:(?:[^:]|$)`
unfoldable pub access_pattern : Regex
access_pattern =
    line_start
    & group 1 (star dot)
    & word_boundary
    & group 2 (
        alts (
          literal (codes "public")
          ∷ literal (codes "private")
          ∷ literal (codes "protected")
          ∷ literal (codes "signals")
          ∷ []))
    & opt (group 3 (plus space & opt (literal (codes "slots") & star space)))
    & char b':'
    & alt (none_of (codes ":")) line_end

-- Access keywords behind nothing but space are to be indented by one more than the class.
unfoldable pub check_access_indent : ClassInfo → Found → ℕ → List Diagnostic
unfolding only_space_pattern
check_access_indent c m linenum =
    let indent = group_text 1 m in
    if length indent == c.class_indent + 1 || not (matches only_space_pattern indent)
    then []
    else report linenum (codes "whitespace/indent") 3 (
        group_text 2 m
        ++ (group_text 3 m ++ (codes ": should be indented +1 space inside " ++ parent_name c)))
      ∷ []

-- The access of the class on top, by its kind
unfoldable pub access_of : Kind → Text → ℕ → Kind × List Diagnostic
unfolding access_pattern check_access_indent
access_of (class_block c) line linenum = elim (match_pattern access_pattern line) [
  | none ↦ (class_block c, [])
  | some m ↦ (class_block (record c { access = group_text 2 m }), check_access_indent c m linenum)
]
access_of k line linenum = (k, [])

unfoldable pub update_access : Text → ℕ → List Block → List Block × List Diagnostic
unfolding access_of
update_access line linenum [] = ([], [])
update_access line linenum (b ∷ bs) =
    let (k, reports) = access_of b.kind line linenum in (record b { kind = k } ∷ bs, reports)
