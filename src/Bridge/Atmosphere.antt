-- ===== src/Bridge/Atmosphere.antt =====
-- The physical constants, `altitude_to_pressure` and `pressure_to_altitude`.
use infinity_autopilot.Prelude.{◌≡◌, ◌≢◌, ap, ◌∙◌, true}
use infinity_autopilot.Bridge.Float.{Float, IsExact}

module _ {F : Type 0} (f : Float F) where
  infixl 65 ◌-◌
  infixl 70 ◌*◌ ◌/◌
  open f use {decimal, ◌-◌, ◌*◌, ◌/◌, pow}

  abbrev pub sea_level_p : F
  sea_level_p = decimal 1013250 1

  abbrev pub temp_k : F
  temp_k = decimal 28815 2

  abbrev pub lapse : F
  lapse = decimal 65 4

  abbrev pub gas_r : F
  gas_r = decimal 287058 3

  abbrev pub gravity : F
  gravity = decimal 980665 5

  unfoldable pub altitude_to_pressure : F → F
  altitude_to_pressure alt_m =
      sea_level_p * pow (decimal 1 0 - lapse * alt_m / temp_k) (gravity / (gas_r * lapse))

  unfoldable pub pressure_to_altitude : F → F
  pressure_to_altitude press_pa =
      temp_k / lapse * (decimal 1 0 - pow (press_pa / sea_level_p) (gas_r * lapse / gravity))

  -- Without rounding, and where the constants are not zero, the altitude of the pressure at an
  -- altitude below the model's ceiling, where 1 - LAPSE · h / TEMP_K is positive, is the altitude.
  pub pressure_to_altitude-altitude_to_pressure :
      (law : IsExact f) (alt_m : F)
      → sea_level_p ≢ decimal 0 1
      → temp_k ≢ decimal 0 1
      → lapse ≢ decimal 0 1
      → gravity ≢ decimal 0 1
      → gas_r * lapse ≢ decimal 0 1
      → f.lt (decimal 0 1) (decimal 1 0 - lapse * alt_m / temp_k) ≡ true
      → pressure_to_altitude (altitude_to_pressure alt_m) ≡ alt_m
  unfolding altitude_to_pressure pressure_to_altitude
  pressure_to_altitude-altitude_to_pressure law alt_m hp ht hl hg hr below =
      ap (λ p. temp_k / lapse * (decimal 1 0 - pow p (gas_r * lapse / gravity)))
        (law.mul-div sea_level_p _ hp)
      ∙ ap (λ x. temp_k / lapse * (decimal 1 0 - x))
          (law.pow-pow _ gravity (gas_r * lapse) hg hr below)
      ∙ ap (λ x. temp_k / lapse * x) (law.sub-sub (decimal 1 0) _)
      ∙ law.div-mul-div temp_k lapse alt_m ht hl
