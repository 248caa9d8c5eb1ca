-- ===== src/Ekf/Script.antt =====
-- What ekf_derivation.py does when it is run: `generate_cpp` and `generate_py`, by the calls that
-- they make of src/modules/EKF/python/code_generation.py.
use infinity_autopilot.Prelude.{List, [], ◌∷◌, ◌++◌, map, Option, none, some, if◌then◌else◌}
use infinity_autopilot.Text.{Text, codes, concat, same_text, file_lines}
use infinity_autopilot.Ekf.Layout.{rot3, m31, IdxDof, build_tangent_state_index}
use infinity_autopilot.Ekf.StateHeader.{Field, kind_of}

-- The functions of the derivation from which code is generated.
pub data Function : Type 0 where
  predict_covariance : Function
  compute_gps_pos_innov_var_and_h : Function
  compute_gps_vel_innov_var_and_h : Function
  compute_mag_innov_var_and_h : Function
  compute_baro_innov_var_and_h : Function
  compute_lidar_innov_var_and_h : Function

-- A call of `generate_cpp_function`, `generate_python_function` or `generate_state_header`.
pub data ScriptCall : Type 0 where
  generate_cpp_function : Function → Option (List Text) → ScriptCall
  generate_python_function : Function → Option (List Text) → ScriptCall
  generate_state_header : List Field → List (Text × IdxDof) → ScriptCall

-- `State`.
abbrev pub state_fields : List Field
state_fields =
    (codes "quat_nominal", rot3)
    ∷ (codes "vel", m31)
    ∷ (codes "pos", m31)
    ∷ (codes "gyro_bias", m31)
    ∷ (codes "accel_bias", m31)
    ∷ []

abbrev with_keys : List Field → List IdxDof → List (Text × IdxDof)
with_keys [] rs = []
with_keys (f ∷ fs) [] = []
with_keys (f ∷ fs) (r ∷ rs) = (f.0, r) ∷ with_keys fs rs

unfoldable pub tangent_idx : List (Text × IdxDof)
tangent_idx = with_keys state_fields (build_tangent_state_index (map kind_of state_fields))

abbrev vector_names : Option (List Text)
vector_names = some (codes "innov" ∷ codes "innov_var" ∷ codes "Hx" ∷ codes "Hy" ∷ codes "Hz" ∷ [])

abbrev scalar_names : Option (List Text)
scalar_names = some (codes "innov" ∷ codes "innov_var" ∷ codes "H" ∷ [])

unfoldable pub generate_cpp : List ScriptCall
generate_cpp =
    generate_cpp_function predict_covariance none
    ∷ generate_cpp_function compute_gps_pos_innov_var_and_h vector_names
    ∷ generate_cpp_function compute_gps_vel_innov_var_and_h vector_names
    ∷ generate_cpp_function compute_mag_innov_var_and_h vector_names
    ∷ generate_cpp_function compute_baro_innov_var_and_h scalar_names
    ∷ generate_cpp_function compute_lidar_innov_var_and_h scalar_names
    ∷ generate_state_header state_fields tangent_idx
    ∷ []

unfoldable pub generate_py : List ScriptCall
generate_py =
    generate_python_function predict_covariance none
    ∷ generate_python_function compute_gps_pos_innov_var_and_h vector_names
    ∷ generate_python_function compute_gps_vel_innov_var_and_h vector_names
    ∷ generate_python_function compute_mag_innov_var_and_h vector_names
    ∷ generate_python_function compute_baro_innov_var_and_h scalar_names
    ∷ generate_python_function compute_lidar_innov_var_and_h scalar_names
    ∷ []

-- The script's end, for a value of `LANG`.
unfoldable pub run_script : Text → List ScriptCall
run_script lang =
    if same_text lang (codes "cpp")
    then generate_cpp
    else if same_text lang (codes "py")
    then generate_py
    else if same_text lang (codes "both")
    then generate_cpp ++ generate_py
    else []

-- `LANG`.
abbrev pub lang : Text
lang = codes "both"

-- What `generate_cpp_function` makes of the generated file: it prints each line as it is.
unfoldable pub rewrite : Text → Text
rewrite content = concat (file_lines content)
