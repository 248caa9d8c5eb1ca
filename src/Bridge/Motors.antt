-- ===== src/Bridge/Motors.antt =====
-- `_send_motor_speeds`: from normalised controls to the motors' speeds.
use infinity_autopilot.Prelude.{
  ℕ, zero, suc, List, [], ◌∷◌, ◌++◌, Option, none, some, ◌>>=◌, Bool, if◌then◌else◌, get_elem?,
}
use infinity_autopilot.Bridge.Float.{Float, min, max}
use infinity_autopilot.Bridge.Messages.{Action, Reply, quiet, send, raises}

abbrev pub num_motors : ℕ
num_motors = 4

abbrev pub publish : {F : Type 0} → Bool → Option (List F) → Reply F
publish gz none = raises
publish gz (some speeds) = if gz then send (Action.motor_speed speeds) else quiet

module _ {F : Type 0} (f : Float F) where
  infixl 70 ◌*◌
  open f use {decimal, ◌*◌}

  abbrev pub max_rads : F
  max_rads = decimal 11000 1

  abbrev pub clamp : F → F
  clamp control = max f (decimal 0 1) (min f (decimal 10 1) control)

  -- The loop: the rounds left, the index, and the speeds so far. `none` is an `IndexError`.
  unfoldable pub speeds_loop : ℕ → ℕ → List F → List F → Option (List F)
  speeds_loop zero i controls speeds = some speeds
  speeds_loop (suc n) i controls speeds = do
    control ← get_elem? controls i
    speeds_loop n (suc i) controls (speeds ++ clamp control * max_rads ∷ [])

  -- `gz` is the flag `GZ`.
  unfoldable pub send_motor_speeds : Bool → List F → Reply F
  send_motor_speeds gz controls = publish gz (speeds_loop num_motors 0 controls [])
