-- ===== src/Bridge/Validation/Course.antt =====
-- The course over ground that is sent.
use infinity_autopilot.Prelude.{
  ℕ, suc, ◌+◌, ◌*◌, ◌/◌, ◌<◌, ◌≡◌, refl, ap, subst, Option, none, some, some-injective, ◌>>=◌,
  IfSome, arith,
}
use infinity_autopilot.Bridge.Int.{ℤ, pos, negsuc, ◌%ℤ◌}
use infinity_autopilot.Bridge.Float.{Float}
use infinity_autopilot.Bridge.Messages.{NavSat, HilGps, Action, Reply, send}
use infinity_autopilot.Bridge.Sensors.{send_as, course, gps_message, on_gps}

-- Whether a centidegree of the compass is the integer, but for full turns.
abbrev pub IsTurnOf : ℕ → ℤ → Type 0
IsTurnOf cog (pos n) = (k : ℕ) × (n ≡ cog + 36000 * k)
IsTurnOf cog (negsuc n) = (k : ℕ) × (suc n + cog ≡ 36000 * k)

rest_IsTurnOf : (z : ℤ) → (z %ℤ 36000 < 36000) × IsTurnOf (z %ℤ 36000) z
rest_IsTurnOf (pos n) = (omega arith, (n / 36000, omega arith))
rest_IsTurnOf (negsuc n) = (omega arith, (suc (n / 36000), omega arith))

module _ {F : Type 0} (f : Float F) where
  -- The course over ground of a message is below a full turn, and the message's course in
  -- centidegrees up to full turns.
  abbrev pub IsCourse : NavSat F → HilGps → Type 0
  IsCourse msg g = (z : ℤ) × (f.to_int (course f msg) ≡ some z) × (g.cog < 36000) × IsTurnOf g.cog z

  gps_message-cog :
      (now : F) (msg : NavSat F)
      → IfSome
          (λ g. (do z ← f.to_int (course f msg); some (z %ℤ 36000)) ≡ some g.cog)
          (gps_message f now msg)
  unfolding gps_message
  gps_message-cog now msg = ground arith

  cog-IsCourse :
      (msg : NavSat F) (g : HilGps) (z : Option ℤ)
      → f.to_int (course f msg) ≡ z
      → (z >>= λ z. some (z %ℤ 36000)) ≡ some g.cog
      → IsCourse msg g
  cog-IsCourse msg g none clock e = cc e
  cog-IsCourse msg g (some z) clock e =
      let (below, turn) =
        subst (λ cog. (cog < 36000) × IsTurnOf cog z) (some-injective _ _ e) (rest_IsTurnOf z) in
      (z, clock, below, turn)

  -- When a message of the satellite receiver is passed on, its course over ground is below 36000
  -- and, up to full turns, the integer part of the course in centidegrees.
  pub on_gps-IsCourse :
      (now : F) (msg : NavSat F) (g : HilGps)
      → on_gps f now msg ≡ send (Action.hil_gps g)
      → IsCourse msg g
  unfolding on_gps
  on_gps-IsCourse now msg g e = passed (gps_message f now msg) (gps_message-cog now msg) e
    where
      gps_of : HilGps → Reply F → HilGps
      gps_of g (send (Action.hil_gps g')) = g'
      gps_of g _ = g

      passed :
          (o : Option HilGps)
          → IfSome (λ g. (do z ← f.to_int (course f msg); some (z %ℤ 36000)) ≡ some g.cog) o
          → send_as {F = F} Action.hil_gps o ≡ send (Action.hil_gps g)
          → IsCourse msg g
      passed none h e = cc e
      passed (some g') h e =
          subst (IsCourse msg) (ap (gps_of g) e)
            (cog-IsCourse msg g' (f.to_int (course f msg)) refl h)
