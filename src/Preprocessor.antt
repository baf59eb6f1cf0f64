-- ===== src/Preprocessor.antt =====
-- NestingState.UpdatePreprocessor and class _PreprocessorInfo of cpplint.py. The blocks on the stack
-- are of any type.
pub mod Directives
pub mod Branches
use myframe.Common.{Bool, true, false, Option, List, [], ◌∷◌, if◌then◌else◌}
use myframe.Text.{Text, codes}
use myframe.Regex.{Regex, group, star, line_start, word_boundary, ◌&◌, matches}
use myframe.Regex.Classes.{char, literal, space, alts}

-- `^\s*#\s*...\b`
abbrev directive : Regex → Regex
directive r = line_start & star space & char b'#' & star space & r & word_boundary

-- `^\s*#\s*(if|ifdef|ifndef)\b`
unfoldable pub if_pattern : Regex
if_pattern = directive (
    group 1 (alts (literal (codes "if") ∷ literal (codes "ifdef") ∷ literal (codes "ifndef") ∷ [])))

-- `^\s*#\s*(else|elif)\b`
unfoldable pub else_pattern : Regex
else_pattern = directive (group 1 (alts (literal (codes "else") ∷ literal (codes "elif") ∷ [])))

-- `^\s*#\s*endif\b`
unfoldable pub endif_pattern : Regex
endif_pattern = directive (literal (codes "endif"))

-- Which of the three tests a line passes, in their order
pub data Directive : Type 0 where
  begins alternates ends other : Directive

unfoldable pub directive_of : Text → Directive
unfolding if_pattern else_pattern endif_pattern
directive_of line =
    if matches if_pattern line
    then begins
    else if matches else_pattern line
    then alternates
    else if matches endif_pattern line
    then ends
    else other

pub record PreprocessorInfo (B : Type 0) : Type 0 where
  pub stack_before_if : List B
  pub stack_before_else : List B
  pub seen_else : Bool

-- A stack has its top in front. `previous_stack_top` is left to Update.
pub record NestingState (B : Type 0) : Type 0 where
  pub stack : List B
  pub previous_stack_top : Option B
  pub pp_stack : List (PreprocessorInfo B)

module _ {B : Type 0} where
  -- _PreprocessorInfo(stack_before_if)
  unfoldable pub preprocessor_info : List B → PreprocessorInfo B
  preprocessor_info stack = record {
    stack_before_if = stack;
    stack_before_else = [];
    seen_else = false;
  }

  -- The first #else or #elif saves the stack.
  unfoldable pub see_else : List B → PreprocessorInfo B → PreprocessorInfo B
  see_else stack info =
      if info.seen_else then info else record info { seen_else = true; stack_before_else = stack }

  -- #else or #elif, by pp_stack
  unfoldable pub on_else : List (PreprocessorInfo B) → NestingState B → NestingState B
  unfolding see_else
  on_else [] s = s
  on_else (info ∷ rest) s = record s {
    stack = info.stack_before_if;
    pp_stack = see_else s.stack info ∷ rest;
  }

  -- #endif, by pp_stack
  unfoldable pub on_endif : List (PreprocessorInfo B) → NestingState B → NestingState B
  on_endif [] s = s
  on_endif (info ∷ rest) s = record s {
    stack = if info.seen_else then info.stack_before_else else s.stack;
    pp_stack = rest;
  }

  unfoldable pub on_directive : Directive → NestingState B → NestingState B
  unfolding preprocessor_info on_else on_endif
  on_directive begins s = record s { pp_stack = preprocessor_info s.stack ∷ s.pp_stack }
  on_directive alternates s = on_else s.pp_stack s
  on_directive ends s = on_endif s.pp_stack s
  on_directive other s = s

  -- UpdatePreprocessor(line)
  unfoldable pub update_preprocessor : Text → NestingState B → NestingState B
  unfolding directive_of on_directive
  update_preprocessor line s = on_directive (directive_of line) s
