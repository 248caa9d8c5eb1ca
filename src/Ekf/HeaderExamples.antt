-- ===== src/Ekf/HeaderExamples.antt =====
-- Tests of the generated header's model, and its theorems at concrete inputs.
use infinity_autopilot.Prelude.{◌≡◌, refl, List, [], ◌∷◌, ◌++◌, map, some, true, false}
use infinity_autopilot.Text.{Text, codes, concat, lines, file_lines}
use infinity_autopilot.Text.Decimal.{decimal}
use infinity_autopilot.Ring.Mod3.{Z3, z0, z1, z2}
use infinity_autopilot.Ekf.Types.{State, vector}
use infinity_autopilot.Ekf.Layout.{
  m31, m21, m11, other, IdxDof, index_from, state_data, build_tangent_state_index, holders,
}
use infinity_autopilot.Ekf.StateHeader.{
  Field, get_cpp_type, member_lines, fill_line, fill_lines, build_state_struct,
  build_tangent_state_struct, header_head, generate_state_header,
}
use infinity_autopilot.Ekf.Script.{state_fields, tangent_idx, run_script, rewrite, lang}
use infinity_autopilot.Ekf.Validation.Script.{
  all_functions, described, in_cpp, in_python, run_script-described, NoReturn, unbroken,
  rewrite-file_lines,
}
use infinity_autopilot.Ekf.Validation.DataText.{
  statement_text, statements, filled, fill_lines-state_data,
}
use infinity_autopilot.Ekf.Validation.Segments.{segments_from, ranges, assignment, fill_lines_tile}
use infinity_autopilot.Ekf.Validation.Header.{generate_state_header-described}
use infinity_autopilot.Ekf.Validation.IndexText.{
  read_entries, read_entries-build_tangent_state_struct,
}

abbrev tangent_index : List (Text × IdxDof)
tangent_index =
    (codes "quat_nominal", record { idx = 0; dof = 3 })
    ∷ (codes "vel", record { idx = 3; dof = 3 })
    ∷ (codes "pos", record { idx = 6; dof = 3 })
    ∷ (codes "gyro_bias", record { idx = 9; dof = 3 })
    ∷ (codes "accel_bias", record { idx = 12; dof = 3 })
    ∷ []

-- src/modules/EKF/python/generated/state.h.
abbrev state_h : Text
state_h =
    codes "// --------------------------------------------------\n"
    ++ codes "// This file was autogenerated, do NOT modify by hand\n"
    ++ codes "// --------------------------------------------------\n"
    ++ codes "\n"
    ++ codes "#ifndef EKF_STATE_H\n"
    ++ codes "#define EKF_STATE_H\n"
    ++ codes "\n"
    ++ codes "#include <Eigen/Dense>\n"
    ++ codes "#include <Eigen/Geometry>\n"
    ++ codes "\n"
    ++ codes "namespace ekf {\n"
    ++ codes "\n"
    ++ codes "struct StateSample {\n"
    ++ codes "\tEigen::Quaternion<float> quat_nominal{};\n"
    ++ codes "\tEigen::Matrix<float, 3, 1> vel{};\n"
    ++ codes "\tEigen::Matrix<float, 3, 1> pos{};\n"
    ++ codes "\tEigen::Matrix<float, 3, 1> gyro_bias{};\n"
    ++ codes "\tEigen::Matrix<float, 3, 1> accel_bias{};\n"
    ++ codes "\n"
    ++ codes "\tEigen::Matrix<float, 16, 1> Data() const {\n"
    ++ codes "\t\tEigen::Matrix<float, 16, 1> state_vec;\n"
    ++ codes
        "\t\tstate_vec.template segment<4>(0) << quat_nominal.x(), quat_nominal.y(), quat_nominal.z(), quat_nominal.w();\n"
    ++ codes "\t\tstate_vec.template segment<3>(4) = vel;\n"
    ++ codes "\t\tstate_vec.template segment<3>(7) = pos;\n"
    ++ codes "\t\tstate_vec.template segment<3>(10) = gyro_bias;\n"
    ++ codes "\t\tstate_vec.template segment<3>(13) = accel_bias;\n"
    ++ codes "\t\treturn state_vec;\n"
    ++ codes "\t}\n"
    ++ codes "\n"
    ++ codes "\tconst Eigen::Matrix<float, 16, 1>& vector() const {\n"
    ++ codes "\t\treturn *reinterpret_cast<const Eigen::Matrix<float, 16, 1>*>(this);\n"
    ++ codes "\t}\n"
    ++ codes "\n"
    ++ codes "};\n"
    ++ codes "\n"
    ++ codes
        "static_assert(sizeof(Eigen::Matrix<float, 16, 1>) == sizeof(StateSample), \"state vector doesn't match StateSample size\");\n"
    ++ codes "\n"
    ++ codes "struct IdxDof { unsigned idx; unsigned dof; };\n"
    ++ codes "namespace State {\n"
    ++ codes "\tstatic constexpr IdxDof quat_nominal{0, 3};\n"
    ++ codes "\tstatic constexpr IdxDof vel{3, 3};\n"
    ++ codes "\tstatic constexpr IdxDof pos{6, 3};\n"
    ++ codes "\tstatic constexpr IdxDof gyro_bias{9, 3};\n"
    ++ codes "\tstatic constexpr IdxDof accel_bias{12, 3};\n"
    ++ codes "\tstatic constexpr uint8_t size{15};\n"
    ++ codes "};\n"
    ++ codes "\n"
    ++ codes "} // namespace ekf\n"
    ++ codes "#endif // EKF_STATE_H\n"

-- The model writes the file that is in the repository.
state_h_written : generate_state_header state_fields tangent_idx (codes "float") ≡ (state_h, false)
unfolding tangent_idx build_tangent_state_index index_from generate_state_header build_state_struct
    build_tangent_state_struct member_lines get_cpp_type fill_lines fill_line decimal
state_h_written = refl

tangent_idx_lem : tangent_idx ≡ tangent_index
unfolding tangent_idx build_tangent_state_index index_from
tangent_idx_lem = refl

-- With a scalar and a pair.
abbrev small_state : List Field
small_state = (codes "range", m11) ∷ (codes "wind", m21) ∷ (codes "vel", m31) ∷ []

fill_lines_tile_example :
    (fill_lines 0 small_state ≡ some (concat (map assignment (segments_from 0 small_state))))
    × (holders 4 (ranges (segments_from 0 small_state)) ≡ 1)
fill_lines_tile_example = fill_lines_tile small_state 4 refl

abbrev odd_state : List Field
odd_state = (codes "vel", m31) ∷ (codes "pose", other 7 6) ∷ []

generate_state_header-described_example :
    generate_state_header odd_state [] (codes "double") ≡ (header_head, true)
generate_state_header-described_example =
    generate_state_header-described (codes "double") odd_state []

abbrev sample : State Z3
sample = record {
  quat_nominal = record { x = z0; y = z1; z = z2; w = z1 };
  vel = vector z0 z1 z2;
  pos = vector z1 z1 z2;
  gyro_bias = vector z0 z0 z1;
  accel_bias = vector z2 z1 z2;
}

fill_lines-state_data_example :
    (fill_lines 0 state_fields ≡ some (concat (map statement_text statements)))
    × (filled sample statements 9 ≡ some (state_data sample 9))
fill_lines-state_data_example = fill_lines-state_data sample 9

read_entries-build_tangent_state_struct_example :
    read_entries (lines (build_tangent_state_struct state_fields tangent_index)) ≡ tangent_index
read_entries-build_tangent_state_struct_example =
    read_entries-build_tangent_state_struct state_fields tangent_index
      (refl, (refl, (refl, (refl, (refl, tt)))))

run_script-described_example :
    (in_cpp (run_script lang) ≡ map described all_functions)
    × (in_python (run_script lang) ≡ map described all_functions)
run_script-described_example = run_script-described lang

abbrev with_return : Text
with_return = codes "#pragma once\r\n\nnamespace sym {"

rewritten : rewrite with_return ≡ codes "#pragma once\n\nnamespace sym {"
unfolding rewrite
rewritten = refl

rewrite-file_lines_example :
    NoReturn (rewrite with_return)
    × (unbroken (rewrite with_return) ≡ unbroken with_return)
    × (file_lines (rewrite with_return) ≡ file_lines with_return)
rewrite-file_lines_example = rewrite-file_lines with_return
