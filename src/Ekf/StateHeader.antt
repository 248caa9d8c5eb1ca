-- ===== src/Ekf/StateHeader.antt =====
-- The C++ header of the state: `build_state_struct`, `build_tangent_state_struct` and
-- `generate_state_header` of src/modules/EKF/python/code_generation.py.
use infinity_autopilot.Prelude.{
  ℕ, ◌+◌, List, [], ◌∷◌, ◌++◌, map, Option, none, some, ◌>>=◌, Bool, true, false,
}
use infinity_autopilot.Text.{Text, codes, concat}
use infinity_autopilot.Text.Decimal.{decimal}
use infinity_autopilot.Ekf.Layout.{
  Kind, rot3, m31, m21, m11, other, storage_dim, total_tangent_dim, IdxDof,
}

-- A key of the state with the type of its value.
abbrev pub Field : Type 0
Field = Text × Kind

abbrev pub kind_of : Field → Kind
kind_of f = f.1

-- The type of a column of scalars.
abbrev pub eigen_column : Text → Text → Text
eigen_column t size = codes "Eigen::Matrix<" ++ t ++ codes ", " ++ size ++ codes ", 1>"

-- `none` is the `NotImplementedError`.
unfoldable pub get_cpp_type : Text → Kind → Option Text
get_cpp_type t m11 = some t
get_cpp_type t m21 = some (eigen_column t (codes "2"))
get_cpp_type t m31 = some (eigen_column t (codes "3"))
get_cpp_type t rot3 = some (codes "Eigen::Quaternion<" ++ t ++ codes ">")
get_cpp_type t (other storage tangent) = none

-- The loop that declares the members.
unfoldable pub member_lines : Text → List Field → Option Text
member_lines t [] = some []
member_lines t ((key, kind) ∷ fs) = do
  type ← get_cpp_type t kind
  rest ← member_lines t fs
  some (codes "\t" ++ type ++ codes " " ++ key ++ codes "{};\n" ++ rest)

abbrev pub total_storage_dim : List Field → ℕ
total_storage_dim [] = 0
total_storage_dim (f ∷ fs) = storage_dim (kind_of f) + total_storage_dim fs

-- A line of `Data()`. `none` is the `NotImplementedError`.
unfoldable pub fill_line : Text → ℕ → Kind → Option Text
fill_line key offset rot3 = some (
    codes "\t\tstate_vec.template segment<4>("
    ++ decimal offset
    ++ codes ") << "
    ++ key
    ++ codes ".x(), "
    ++ key
    ++ codes ".y(), "
    ++ key
    ++ codes ".z(), "
    ++ key
    ++ codes ".w();\n")
fill_line key offset m31 = some (
    codes "\t\tstate_vec.template segment<3>("
    ++ decimal offset
    ++ codes ") = "
    ++ key
    ++ codes ";\n")
fill_line key offset m21 = some (
    codes "\t\tstate_vec.template segment<2>("
    ++ decimal offset
    ++ codes ") = "
    ++ key
    ++ codes ";\n")
fill_line key offset m11 =
    some (codes "\t\tstate_vec(" ++ decimal offset ++ codes ") = " ++ key ++ codes ";\n")
fill_line key offset (other storage tangent) = none

-- The loop over `state.index()`, in which the keys stand in order, each with its storage dimension
-- behind the one before, from an offset on.
unfoldable pub fill_lines : ℕ → List Field → Option Text
fill_lines offset [] = some []
fill_lines offset ((key, kind) ∷ fs) = do
  line ← fill_line key offset kind
  rest ← fill_lines (offset + storage_dim kind) fs
  some (line ++ rest)

-- `next(iter(state))`; `none` is the `StopIteration`.
abbrev pub first_field : List Field → Option Text
first_field [] = none
first_field (f ∷ fs) = some f.0

-- From `Data()` to its declaration of the vector.
abbrev pub data_head : Text → Text
data_head vector =
    codes "\n\t"
    ++ vector
    ++ codes " Data() const {\n"
    ++ codes "\t\t"
    ++ vector
    ++ codes " state_vec;\n"

abbrev pub data_tail : Text
data_tail = codes "\t\treturn state_vec;\n" ++ codes "\t}\n\n"

-- `vector()`, the end of the structure and the assertion of its size.
abbrev pub struct_tail : Text → Text
struct_tail vector =
    codes "\tconst "
    ++ vector
    ++ codes "& vector() const {\n"
    ++ codes "\t\treturn *reinterpret_cast<const "
    ++ vector
    ++ codes "*>(this);\n"
    ++ codes "\t}\n\n"
    ++ codes "};\n\n"
    ++ codes "static_assert(sizeof("
    ++ vector
    ++ codes ") == sizeof(StateSample), \"state vector doesn't match StateSample size\");\n"

abbrev pub struct_text : Text → Text → Text → Text
struct_text vector members fills =
    codes "struct StateSample {\n"
    ++ members
    ++ data_head vector
    ++ fills
    ++ data_tail
    ++ struct_tail vector

unfoldable pub build_state_struct : Text → List Field → Option Text
build_state_struct t state = do
  members ← member_lines t state
  fills ← fill_lines 0 state
  _ ← first_field state
  some (struct_text (eigen_column t (decimal (total_storage_dim state))) members fills)

abbrev pub index_line : Text × IdxDof → Text
index_line (key, range) =
    codes "\tstatic constexpr IdxDof "
    ++ key
    ++ codes "{"
    ++ decimal range.idx
    ++ codes ", "
    ++ decimal range.dof
    ++ codes "};\n"

unfoldable pub build_tangent_state_struct : List Field → List (Text × IdxDof) → Text
build_tangent_state_struct state tangent_state_index =
    codes "struct IdxDof { unsigned idx; unsigned dof; };\n"
    ++ codes "namespace State {\n"
    ++ concat (map index_line tangent_state_index)
    ++ codes "\tstatic constexpr uint8_t size{"
    ++ decimal (total_tangent_dim (map kind_of state))
    ++ codes "};\n"
    ++ codes "};\n"

abbrev pub header_head : Text
header_head =
    codes "// --------------------------------------------------\n"
    ++ codes "// This file was autogenerated, do NOT modify by hand\n"
    ++ codes "// --------------------------------------------------\n"
    ++ codes "\n#ifndef EKF_STATE_H"
    ++ codes "\n#define EKF_STATE_H\n\n"
    ++ codes "#include <Eigen/Dense>\n"
    ++ codes "#include <Eigen/Geometry>\n\n"
    ++ codes "namespace ekf {\n\n"

abbrev pub header_tail : Text
header_tail = codes "\n} // namespace ekf\n" ++ codes "#endif // EKF_STATE_H\n"

-- What is in the file at the end, and whether an exception stopped the writing.
abbrev pub on_struct : Option Text → Text → Text × Bool
on_struct none tangent = (header_head, true)
on_struct (some struct) tangent =
    (header_head ++ struct ++ codes "\n" ++ tangent ++ header_tail, false)

unfoldable pub generate_state_header : List Field → List (Text × IdxDof) → Text → Text × Bool
generate_state_header state tangent_state_index t =
    on_struct (build_state_struct t state) (build_tangent_state_struct state tangent_state_index)
