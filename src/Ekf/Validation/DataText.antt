-- ===== src/Ekf/Validation/DataText.antt =====
-- What the statements of `Data()` in the header of the state mean (src/modules/EKF/python/
-- code_generation.py): the text as statements, and the vector that they fill.
use infinity_autopilot.Prelude.{
  ℕ, zero, suc, ◌+◌, ◌-◌, ◌≡◌, refl, List, [], ◌∷◌, ◌++◌, map, Option, none, some, if◌then◌else◌,
  ltb, get_elem?, ◌>>=◌, arith,
}
use infinity_autopilot.Text.{Text, codes, concat, join}
use infinity_autopilot.Text.Decimal.{decimal}
use infinity_autopilot.Ekf.Types.{State, V3, component}
use infinity_autopilot.Ekf.Layout.{state_data}
use infinity_autopilot.Ekf.StateHeader.{fill_line, fill_lines}
use infinity_autopilot.Ekf.Script.{state_fields}

-- The members of the C++ structure that are vectors, and the accessors of its quaternion.
pub data Member : Type 0 where
  vel pos gyro_bias accel_bias : Member

pub data Axis : Type 0 where
  x y z w : Axis

-- What is assigned: a vector, or a list of the quaternion's components, `v << a, b, c, d`.
pub data Source : Type 0 where
  whole : Member → Source
  listed : List Axis → Source

-- `state_vec.template segment<dof>(idx)` with what is assigned to it.
pub record Statement : Type 0 where
  pub idx : ℕ
  pub dof : ℕ
  pub source : Source

abbrev pub member_text : Member → Text
member_text vel = codes "vel"
member_text pos = codes "pos"
member_text gyro_bias = codes "gyro_bias"
member_text accel_bias = codes "accel_bias"

abbrev pub axis_text : Axis → Text
axis_text x = codes "quat_nominal.x()"
axis_text y = codes "quat_nominal.y()"
axis_text z = codes "quat_nominal.z()"
axis_text w = codes "quat_nominal.w()"

abbrev pub source_text : Source → Text
source_text (whole m) = codes " = " ++ member_text m
source_text (listed axes) = codes " << " ++ join (codes ", ") (map axis_text axes)

abbrev pub statement_text : Statement → Text
statement_text s =
    codes "\t\tstate_vec.template segment<"
    ++ decimal s.dof
    ++ codes ">("
    ++ decimal s.idx
    ++ codes ")"
    ++ source_text s.source
    ++ codes ";\n"

abbrev pub statements : List Statement
statements =
    record { idx = 0; dof = 4; source = Source.listed (x ∷ y ∷ z ∷ w ∷ []) }
    ∷ record { idx = 4; dof = 3; source = Source.whole Member.vel }
    ∷ record { idx = 7; dof = 3; source = Source.whole Member.pos }
    ∷ record { idx = 10; dof = 3; source = Source.whole Member.gyro_bias }
    ∷ record { idx = 13; dof = 3; source = Source.whole Member.accel_bias }
    ∷ []

module _ {K : Type 0} (s : State K) where
  abbrev pub member : Member → V3 K
  member vel = s.vel
  member pos = s.pos
  member gyro_bias = s.gyro_bias
  member accel_bias = s.accel_bias

  abbrev pub axis : Axis → K
  axis x = s.quat_nominal.x
  axis y = s.quat_nominal.y
  axis z = s.quat_nominal.z
  axis w = s.quat_nominal.w

  abbrev pub assigned : Source → ℕ → Option K
  assigned (whole m) n = some (component (member m) n)
  assigned (listed axes) n = do a ← get_elem? axes n; some (axis a)

  -- What stands in a place after statements on separate segments.
  abbrev pub filled : List Statement → ℕ → Option K
  filled [] i = none
  filled (t ∷ ts) i =
      let rest = filled ts i in
      if ltb i t.idx
      then rest
      else if ltb i (t.idx + t.dof)
      then assigned t.source (i - t.idx)
      else rest

  filled-state_data :
      (i : ℕ) → filled statements i ≡ (if ltb i 16 then some (state_data s i) else none)
  unfolding state_data
  filled-state_data zero = refl
  filled-state_data (suc zero) = refl
  filled-state_data (suc (suc zero)) = refl
  filled-state_data (suc (suc (suc zero))) = refl
  filled-state_data (suc (suc (suc (suc n)))) = grind arith

  -- The text of the assignments in `Data()` of the filter's state is that of five statements, and
  -- what these put into the vector for any state is `state_data`: the quaternion as (x, y, z, w), then
  -- the velocity, the position and the two biases.
  pub fill_lines-state_data :
      (i : ℕ)
      → (fill_lines 0 state_fields ≡ some (concat (map statement_text statements)))
        × (filled statements i ≡ (if ltb i 16 then some (state_data s i) else none))
  unfolding fill_line fill_lines decimal
  fill_lines-state_data i = (refl, filled-state_data i)
