-- ===== src/Functions.antt =====
-- class _FunctionState and CheckForFunctionLengths of cpplint.py: the lines of a function's body.
pub mod Trigger
pub mod Track
use myframe.Common.{
  ℕ, zero, suc, ◌+◌, ◌*◌, ◌^◌, Bool, true, false, not, ◌&&◌, ◌||◌, none, some, List, [], ◌∷◌, ◌++◌,
  ltb, leb, if◌then◌else◌, drop, get_or,
}
use myframe.Text.{Text, codes, text_eq, lstrip, decimal, last_word}
use myframe.Regex.{
  Regex, alt, star, group, line_start, line_end, ◌&◌, group_text, match_pattern, search_pattern,
  matches, contains, chr,
}
use myframe.Regex.Classes.{char, literal, space, word, dot, one_of, plus, alts}
use myframe.Categories.{Diagnostic}

pub record FunctionState : Type 0 where
  pub in_a_function : Bool
  pub lines_in_function : ℕ
  pub current_function : Text

-- _NORMAL_TRIGGER, _TEST_TRIGGER
abbrev pub normal_trigger : ℕ
normal_trigger = 250

abbrev pub test_trigger : ℕ
test_trigger = 400

-- __init__
unfoldable pub init_function_state : FunctionState
init_function_state = record { in_a_function = false; lines_in_function = 0; current_function = [] }

-- Begin(function_name)
unfoldable pub begin : Text → FunctionState → FunctionState
begin name s = record { in_a_function = true; lines_in_function = 0; current_function = name }

-- Count()
unfoldable pub count_line : FunctionState → FunctionState
count_line s =
    if s.in_a_function then record s { lines_in_function = s.lines_in_function + 1 } else s

-- End()
unfoldable pub end : FunctionState → FunctionState
end s = record s { in_a_function = false }

-- `T(EST|est)`
unfoldable pub test_pattern : Regex
test_pattern = char b'T' & group 1 (alt (literal (codes "EST")) (literal (codes "est")))

unfoldable pub base_trigger : FunctionState → ℕ
base_trigger s = if matches test_pattern s.current_function then test_trigger else normal_trigger

-- int(math.log(lines / base, 2)) for lines above the base, cut off at `cap`: how often the base can
-- be doubled without passing the lines.
unfoldable pub doublings : ℕ → ℕ → ℕ → ℕ
doublings zero base lines = 0
doublings (suc cap) base lines =
    if leb (base * 2) lines then suc (doublings cap (base * 2) lines) else 0

-- The report on a function that is too long
abbrev pub long_function : ℕ → ℕ → FunctionState → Diagnostic
long_function verbose line s = record {
  line = line;
  category = codes "readability/fn_size";
  confidence = doublings 5 (base_trigger s) s.lines_in_function;
  message =
      codes "Small and focused functions are preferred: "
      ++ (s.current_function
          ++ (codes " has "
              ++ (decimal s.lines_in_function
                  ++ (codes " non-comment lines (error triggered by exceeding "
                      ++ (decimal (base_trigger s * 2 ^ verbose) ++ codes " lines).")))));
}

-- Check(error, filename, linenum), where `verbose` is _VerboseLevel()
unfoldable pub check_length : ℕ → ℕ → FunctionState → List Diagnostic
check_length verbose line s =
    if s.in_a_function && ltb (base_trigger s * 2 ^ verbose) s.lines_in_function
    then long_function verbose line s ∷ []
    else []

-- `(\w(\w|::|\*|\&|\s)*)\(`
unfoldable pub declaration_pattern : Regex
declaration_pattern =
    group 1 (
      word
      & star (group 2 (alts (word ∷ literal (codes "::") ∷ char b'*' ∷ char b'&' ∷ space ∷ []))))
    & char b'('

-- `[A-Z_]+$`
unfoldable pub macro_pattern : Regex
macro_pattern = plus (chr (λ c. (leb b'A' c && leb c b'Z') || has_underscore c)) & line_end
  where
    has_underscore : ℕ → Bool
    has_underscore c = leb c b'_' && leb b'_' c

-- `((\w|:)*)\(`
unfoldable pub function_pattern : Regex
function_pattern = group 1 (star (group 2 (alt word (char b':')))) & char b'('

-- `(\(.*\))`
unfoldable pub parameter_pattern : Regex
parameter_pattern = group 1 (char b'(' & star dot & char b')')

-- `^\}\s*$` and `^\s*$`
unfoldable pub closing_pattern : Regex
closing_pattern = line_start & char b'}' & star space & line_end

unfoldable pub blank_pattern : Regex
blank_pattern = line_start & star space & line_end

-- starting_func: the line looks like the head of a function, and not like a macro
unfoldable pub is_starting_func : Text → Bool
is_starting_func line = elim (match_pattern declaration_pattern line) [
  | none ↦ false
  | some m ↦
      let name = last_word (group_text 1 m) in
      text_eq name (codes "TEST")
      || (text_eq name (codes "TEST_F") || not (matches macro_pattern name))
]

-- The name that is kept, with the parameters of a TEST macro
unfoldable pub function_name : Text → Text → Text
function_name line joined_line =
    let function : Text = elim (search_pattern function_pattern line) [
      | none ↦ []
      | some m ↦ group_text 1 m
    ] in
    if matches (literal (codes "TEST")) function
    then elim (search_pattern parameter_pattern joined_line) [
      | none ↦ function
      | some m ↦ function ++ group_text 1 m
    ]
    else function ++ codes "()"

-- What the loop over the lines from the head on finds: a declaration or a trivial function, the
-- opening brace, with the lines joined so far, or the end of the file.
pub data Body : Type 0 where
  trivial : Body
  opened : Text → Body
  not_found : Body

unfoldable pub find_body : Text → List Text → Body
find_body joined_line [] = not_found
find_body joined_line (start_line ∷ rest) =
    let joined = joined_line ++ 32 ∷ lstrip start_line in
    let later = find_body joined rest in
    if contains (one_of (codes ";}")) start_line
    then trivial
    else if contains (char b'{') start_line
    then opened joined
    else later

unfoldable pub start_function : Text → ℕ → Body → FunctionState → FunctionState × List Diagnostic
start_function line linenum trivial s = (s, [])
start_function line linenum (opened joined) s = (begin (function_name line joined) s, [])
start_function line linenum not_found s = (
  s,
  record {
    line = linenum;
    category = codes "readability/fn_size";
    confidence = 5;
    message = codes "Lint failed to find start of function body.";
  }
      ∷ [],
)

-- CheckForFunctionLengths(filename, clean_lines, linenum, function_state, error), over
-- clean_lines.lines
unfoldable pub check_for_function_lengths :
    ℕ → List Text → ℕ → FunctionState → FunctionState × List Diagnostic
check_for_function_lengths verbose lines linenum s =
    let line = get_or lines linenum [] in
    if is_starting_func line
    then start_function line linenum (find_body [] (drop linenum lines)) s
    else if matches closing_pattern line
    then (end s, check_length verbose linenum s)
    else if not (matches blank_pattern line)
    then (count_line s, [])
    else (s, [])
