-- ===== src/Blocks.antt =====
-- class _BlockInfo of cpplint.py and its subclasses: what is known of a block of code, and what
-- CheckBegin makes of it.
pub mod Closing
use myframe.Common.{
  ℕ, suc, ◌+◌, Bool, true, false, Option, none, some, List, [], ◌∷◌, ◌==◌, if◌then◌else◌, drop,
  get_or,
}
use myframe.Common.Int.{ℤ, pos, sub_ℕ, ◌+ℤ◌}
use myframe.Text.{Text, codes, text_eq, count}
use myframe.Regex.{Regex, alt, group, line_start, line_end, ◌&◌, contains}
use myframe.Regex.Classes.{char, none_of}
use myframe.Categories.{Diagnostic}
use myframe.Cleanse.Lines.{CleansedLines}
use myframe.FileChecks.{get_indent_level}

abbrev pub report : ℕ → Text → ℕ → Text → Diagnostic
report line category confidence message = record {
  line = line;
  category = category;
  confidence = confidence;
  message = message;
}

-- _NO_ASM and the constants after it
pub data AsmState : Type 0 where
  no_asm inside_asm end_asm block_asm : AsmState

-- The fields of _ClassInfo alone
pub record ClassInfo : Type 0 where
  pub name : Text
  pub is_derived : Bool
  pub access : Text
  pub is_struct : Bool
  pub class_indent : ℕ
  pub last_line : ℕ

-- The class of the object: _BlockInfo itself, _ExternCInfo, _ClassInfo, or _NamespaceInfo with its name
pub data Kind : Type 0 where
  generic_block extern_c_block : Kind
  class_block : ClassInfo → Kind
  namespace_block : Text → Kind

-- `id` stands for the identity of the object, which `==` compares.
pub record Block : Type 0 where
  pub id : ℕ
  pub starting_linenum : ℕ
  pub seen_open_brace : Bool
  pub open_parentheses : ℤ
  pub inline_asm : AsmState
  pub check_namespace_indentation : Bool
  pub kind : Kind

abbrev pub is_namespace : Kind → Bool
is_namespace (namespace_block name) = true
is_namespace _ = false

abbrev pub is_class : Kind → Bool
is_class (class_block c) = true
is_class _ = false

-- _BlockInfo(linenum, seen_open_brace)
unfoldable pub block_info : ℕ → ℕ → Bool → Block
block_info id linenum seen_open_brace = record {
  id = id;
  starting_linenum = linenum;
  seen_open_brace = seen_open_brace;
  open_parentheses = pos 0;
  inline_asm = no_asm;
  check_namespace_indentation = false;
  kind = generic_block;
}

-- _ExternCInfo(linenum)
unfoldable pub extern_c_info : ℕ → ℕ → Block
unfolding block_info
extern_c_info id linenum = record (block_info id linenum true) { kind = extern_c_block }

-- The integer is this number.
abbrev pub is_number : ℕ → ℤ → Bool
is_number n (pos k) = k == n
is_number n _ = false

-- The first line from number `i` on behind which no brace is open
unfoldable pub end_of_class : ℕ → ℤ → List Text → ℕ
unfolding count ◌+ℤ◌
end_of_class i depth [] = 0
end_of_class i depth (line ∷ rest) =
    let depth' = depth +ℤ sub_ℕ (count (codes "{") line) (count (codes "}") line) in
    let later = end_of_class (suc i) depth' rest in if is_number 0 depth' then i else later

-- _ClassInfo(name, class_or_struct, clean_lines, linenum)
unfoldable pub class_info : ℕ → Text → Text → CleansedLines → ℕ → Block
unfolding block_info end_of_class text_eq
class_info id name class_or_struct clean linenum =
    let is_struct = text_eq class_or_struct (codes "struct") in
    record (block_info id linenum false) {
      check_namespace_indentation = true;
      kind = class_block (record {
        name = name;
        is_derived = false;
        access = if is_struct then codes "public" else codes "private";
        is_struct = is_struct;
        class_indent = get_indent_level (get_or clean.raw_lines linenum []);
        last_line = end_of_class linenum (pos 0) (drop linenum clean.elided);
      });
    }

-- _NamespaceInfo(name, linenum)
unfoldable pub namespace_info : ℕ → Option Text → ℕ → Block
unfolding block_info
namespace_info id name linenum = record (block_info id linenum false) {
  check_namespace_indentation = true;
  kind = namespace_block (elim name [ none ↦ [] | some n ↦ n ]);
}

-- `(^|[^:]):($|[^:])`
unfoldable pub bare_colon_pattern : Regex
bare_colon_pattern =
    group 1 (alt line_start (none_of (codes ":")))
    & char b':'
    & group 2 (alt line_end (none_of (codes ":")))

abbrev derived_kind : Bool → Kind → Kind
derived_kind true (class_block c) = class_block (record c { is_derived = true })
derived_kind _ k = k

-- CheckBegin(filename, clean_lines, linenum, error), on clean_lines.elided[linenum]
unfoldable pub check_begin : Text → Block → Block
unfolding bare_colon_pattern
check_begin line b = record b { kind = derived_kind (contains bare_colon_pattern line) b.kind }
