-- ===== src/Params/Generate.antt =====
-- `generate` of scripts/params/generate_params.py: the two files that it writes.
use infinity_autopilot.Prelude.{
  ℕ, suc, List, [], ◌∷◌, ◌++◌, Option, none, some, ◌>>=◌, Bool, true, false, if◌then◌else◌,
}
use infinity_autopilot.Text.{Text, codes, concat, path_join}
use infinity_autopilot.Text.Decimal.{decimal}
use infinity_autopilot.Params.Yaml.{Yaml, Python, as_text, equals_text, str}
use infinity_autopilot.Params.Collect.{Param, collect_params}

-- An enumerator of `ID`.
unfoldable pub enum_line : Text → ℕ → Text
enum_line name i = codes "    " ++ name ++ codes " = " ++ decimal i ++ codes ",\n"

unfoldable pub enum_lines : ℕ → List Param → List Text
enum_lines i [] = []
enum_lines i (p ∷ ps) = enum_line p.name i ∷ enum_lines (suc i) ps

unfoldable pub default_str : Python → Param → Text
default_str py p =
    if equals_text p.type (codes "float")
    then codes ".f_default = " ++ str py p.default ++ codes "f"
    else if equals_text p.type (codes "int32")
    then codes ".i32_default = " ++ str py p.default
    else if equals_text p.type (codes "bool")
    then codes ".b_default = " ++ py.lower (str py p.default)
    else []

-- An entry of the table. `none` is the `AttributeError` of a type that is not a text.
unfoldable pub row : Python → Param → Option Text
row py p = do
  type ← as_text p.type
  some (
      codes "    { .id = ID::"
      ++ p.name
      ++ codes ", .name = \""
      ++ p.name
      ++ codes "\", .type = Metadata::"
      ++ py.upper type
      ++ codes ", "
      ++ default_str py p
      ++ codes ", .min = "
      ++ str py p.min
      ++ codes ", .max = "
      ++ str py p.max
      ++ codes ", .desc = \""
      ++ str py p.desc
      ++ codes "\" },\n")

-- The rows that are written, and whether an exception stopped the loop.
abbrev pub on_row : Option Text → List Text × Bool → List Text × Bool
on_row none rest = ([], true)
on_row (some r) (rs, raised) = (r ∷ rs, raised)

unfoldable pub table_rows : Python → List Param → List Text × Bool
table_rows py [] = ([], false)
table_rows py (p ∷ ps) = on_row (row py p) (table_rows py ps)

abbrev pub hpp_head : Text
hpp_head =
    codes "#pragma once\n#include <cstdint>\n\n"
    ++ codes "namespace infinity::params {\n\n"
    ++ codes "enum class ID : uint16_t {\n"

abbrev pub hpp_tail : Text
hpp_tail =
    codes "    COUNT\n};\n\n"
    ++ codes "struct Metadata {\n"
    ++ codes "    ID id;\n"
    ++ codes "    const char* name;\n"
    ++ codes "    enum Type { INT32, FLOAT, BOOL } type;\n"
    ++ codes "    union { int32_t i32_default; float f_default; bool b_default; };\n"
    ++ codes "    float min;\n"
    ++ codes "    float max;\n"
    ++ codes "    const char* desc;\n"
    ++ codes "};\n\n"
    ++ codes "extern const Metadata g_param_metadata[];\n\n"
    ++ codes "} // namespace infinity::params\n"

abbrev pub cpp_head : Text
cpp_head =
    codes "#include \"param_defs.hpp\"\n\n"
    ++ codes "namespace infinity::params {\n\n"
    ++ codes "const Metadata g_param_metadata[] = {\n"

abbrev pub cpp_tail : Text
cpp_tail =
    codes "};\n\n"
    ++ codes "static_assert(sizeof(g_param_metadata)/sizeof(g_param_metadata[0]) == "
    ++ codes "static_cast<uint16_t>(ID::COUNT), \"Mismatch metadata count\");\n\n"
    ++ codes "} // namespace\n"

-- The files written, with what they hold in the end, and whether an exception ended the run.
pub record Run : Type 0 where
  pub files : List (Text × Text)
  pub raised : Bool

abbrev pub written : Text → Text → List Text × Bool → Run
written output_dir hpp (rs, raised) = record {
  files =
      (path_join output_dir (codes "param_defs.hpp"), hpp)
      ∷ (
        path_join output_dir (codes "param_defs.cpp"),
        cpp_head ++ concat rs ++ (if raised then [] else cpp_tail),
      )
      ∷ [];
  raised = raised;
}

abbrev pub on_params : Python → Text → Option (List Param) → Run
on_params py output_dir none = record { files = []; raised = true }
on_params py output_dir (some ps) =
    written output_dir (hpp_head ++ concat (enum_lines 0 ps) ++ hpp_tail) (table_rows py ps)

unfoldable pub generate : Python → Text → List (Option Yaml) → Run
generate py output_dir files = on_params py output_dir (collect_params py files)
