-- ===== src/Bridge/Validation/MotorBounds.antt =====
-- The speeds that the motors are given.
use infinity_autopilot.Prelude.{
  ◌<◌, ◌≡◌, ◌↔◌, refl, ap, subst, List, [], ◌∷◌, ◌++◌, some, Bool, true, false, if◌then◌else◌,
  length, Bool-cases, inl, inr, arith,
}
use infinity_autopilot.Bridge.Float.{Float, IsOrdered, max}
use infinity_autopilot.Bridge.Messages.{Action, Reply, quiet, send, raises}
use infinity_autopilot.Bridge.Motors.{
  num_motors, max_rads, clamp, speeds_loop, publish, send_motor_speeds,
}

module _ {F : Type 0} (f : Float F) where
  infixl 70 ◌*◌
  open f use {decimal, ◌*◌, lt}

  -- Not below 0.0 · MAX_RADS, and not above 1.0 · MAX_RADS.
  abbrev pub InRange : F → Type 0
  InRange s = (lt s (decimal 0 1 * max_rads f) ≡ false) × (lt (decimal 10 1 * max_rads f) s ≡ false)

  abbrev pub AllInRange : List F → Type 0
  AllInRange [] = Unit
  AllInRange (s ∷ ss) = InRange s × AllInRange ss

  AllInRange-++ : (xs ys : List F) → AllInRange xs → AllInRange ys → AllInRange (xs ++ ys)
  AllInRange-++ [] ys hx hy = hy
  AllInRange-++ (x ∷ xs) ys hx hy = (hx.0, AllInRange-++ xs ys hx.1 hy)

  -- 1 where the control is not below 1, itself where it is above 0, and else 0.
  abbrev pub share : F → F
  share control =
      if lt control (decimal 10 1)
      then (if lt (decimal 0 1) control then control else decimal 0 1)
      else decimal 10 1

  abbrev pub clamped_speed : F → F
  clamped_speed control = share control * max_rads f

  module _ (law : IsOrdered f) where
    contra : (x y : F) → lt x y ≡ true → lt y x ≡ true → ⊥
    contra x y h k = cc (law.asym x y h)

    not-lt : (x y : F) → (lt x y ≡ true → ⊥) → lt x y ≡ false
    not-lt x y h = elim (Bool-cases (lt x y)) [ inl e ↦ absurd (h e) | inr e ↦ e ]

    irrefl : (x : F) → lt x x ≡ false
    irrefl x = not-lt x x (λ h. contra x x h h)

    clamp_bounds :
        (c : F) → (lt (clamp f c) (decimal 0 1) ≡ false) × (lt (decimal 10 1) (clamp f c) ≡ false)
    clamp_bounds c = elim (Bool-cases (lt c (decimal 10 1))) [
      | inl below ↦ elim (Bool-cases (lt (decimal 0 1) c)) [
        | inl above ↦ rw (below, above) (law.asym _ _ above, law.asym _ _ below)
        | inr not-above ↦ rw (below, not-above) (irrefl _, law.asym _ _ law.zero-lt-one)
      ]
      | inr not-below ↦ rw (not-below, law.zero-lt-one) (law.asym _ _ law.zero-lt-one, irrefl _)
    ]

    speed-InRange :
        (c : F) → lt (decimal 0 1) (max_rads f) ≡ true → InRange (clamp f c * max_rads f)
    speed-InRange c pos = (
      not-lt _ _ (λ h.
          cc ((clamp_bounds c).0, law.lt_of_mul (clamp f c) (decimal 0 1) (max_rads f) pos h)),
      not-lt _ _ (λ h.
          cc ((clamp_bounds c).1, law.lt_of_mul (decimal 10 1) (clamp f c) (max_rads f) pos h)),
    )

module _ {F : Type 0} (f : Float F) (law : IsOrdered f) (gz : Bool) where
  infixl 70 ◌*◌
  open f use {decimal, ◌*◌, lt}

  speeds_of : Reply F → List F
  speeds_of (send (Action.motor_speed speeds)) = speeds
  speeds_of _ = []

  published :
      (r : Bool) (speeds speeds' : List F)
      → publish r (some speeds) ≡ send (Action.motor_speed speeds')
      → speeds ≡ speeds'
  unfolding speeds_of
  published true speeds speeds' e = ap speeds_of e
  published false speeds speeds' e = cc e

  -- For numbers ordered as IEEE 754 says, with a positive full speed, the speeds that are published
  -- for the motors are four, none of them below 0 or above full speed, whatever the controls are.
  pub send_motor_speeds-InRange :
      (controls speeds : List F)
      → lt (decimal 0 1) (max_rads f) ≡ true
      → send_motor_speeds f gz controls ≡ send (Action.motor_speed speeds)
      → (length speeds ≡ num_motors) × AllInRange f speeds
  unfolding send_motor_speeds speeds_loop
  send_motor_speeds-InRange [] speeds pos e = cc e
  send_motor_speeds-InRange (a ∷ []) speeds pos e = cc e
  send_motor_speeds-InRange (a ∷ b ∷ []) speeds pos e = cc e
  send_motor_speeds-InRange (a ∷ b ∷ c ∷ []) speeds pos e = cc e
  send_motor_speeds-InRange (a ∷ b ∷ c ∷ d ∷ rest) speeds pos e =
      let safe : (x : F) → InRange f (clamp f x * max_rads f) = λ x. speed-InRange f law x pos in
      subst (λ s. (length s ≡ num_motors) × AllInRange f s) (published gz _ speeds e)
        (refl, (safe a, (safe b, (safe c, (safe d, tt)))))

  clamp-share : (control : F) → clamp f control ≡ share f control
  clamp-share control = go (lt control (decimal 10 1))
    where
      go :
          (below : Bool)
          → max f (decimal 0 1) (if below then control else decimal 10 1) ≡ (
              if below
              then (if lt (decimal 0 1) control then control else decimal 0 1)
              else decimal 10 1)
      go true = refl
      go false = rw law.zero-lt-one refl

  -- For numbers ordered as IEEE 754 says, handling at least four controls publishes a speed for each
  -- of the first four, where there is a Gazebo to publish them to, and else nothing: full speed where
  -- the control is not below 1, which includes NaN, the control's share of full speed where it is
  -- below 1 and above 0, and 0 times full speed otherwise.
  pub send_motor_speeds-clamped :
      (a b c d : F) (rest : List F)
      → send_motor_speeds f gz (a ∷ b ∷ c ∷ d ∷ rest) ≡ (
          if gz
          then send (
              Action.motor_speed (
                clamped_speed f a ∷ clamped_speed f b ∷ clamped_speed f c ∷ clamped_speed f d ∷ []))
          else quiet)
  unfolding send_motor_speeds speeds_loop
  send_motor_speeds-clamped a b c d rest i = publish gz (
      some (
        clamp-share a i * max_rads f
        ∷ clamp-share b i * max_rads f
        ∷ clamp-share c i * max_rads f
        ∷ clamp-share d i * max_rads f
        ∷ []))

module _ {F : Type 0} (f : Float F) (gz : Bool) where
  published-returns : (r : Bool) (speeds : List F) → ¬ (publish r (some speeds) ≡ raises)
  published-returns true speeds e = cc e
  published-returns false speeds e = cc e

  -- Handling the controls raises an exception exactly when they are fewer than the motors.
  pub send_motor_speeds-raises :
      (controls : List F)
      → (send_motor_speeds f gz controls ≡ raises) ↔ (length controls < num_motors)
  unfolding send_motor_speeds speeds_loop
  send_motor_speeds-raises [] = (λ e. omega arith, λ h. refl)
  send_motor_speeds-raises (a ∷ []) = (λ e. omega arith, λ h. refl)
  send_motor_speeds-raises (a ∷ b ∷ []) = (λ e. omega arith, λ h. refl)
  send_motor_speeds-raises (a ∷ b ∷ c ∷ []) = (λ e. omega arith, λ h. refl)
  send_motor_speeds-raises (a ∷ b ∷ c ∷ d ∷ rest) =
      (λ e. absurd (published-returns gz _ e), λ h. absurd (omega arith))
