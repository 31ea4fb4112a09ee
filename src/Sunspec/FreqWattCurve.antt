-- ===== src/Sunspec/FreqWattCurve.antt =====
-- internal/sunspec/freq_watt_curve.go: Model 134, the four-point frequency-watt curve.
use apsystems_sunspec.Base.{
  ℕ, ◌+◌, ◌*◌, refl, Bool, ◌&&◌, List, [], ◌∷◌, ◌++◌, codes, if◌then◌else◌, drop, replicate,
}
use apsystems_sunspec.Base.Int.{pos, negsuc}
use apsystems_sunspec.Floats.{Floats}
use apsystems_sunspec.Source.Protection.{ProtectionParams}
use apsystems_sunspec.Sunspec.Bank.{scale_factor, put_string}
use apsystems_sunspec.Sunspec.Chain.{IsModel}
use apsystems_sunspec.Sunspec.FreqDroop.{mode_active}

abbrev pub freq_watt_curve_model_id : ℕ
freq_watt_curve_model_id = 134

-- The header's 10 registers and 58 for the one curve.
abbrev pub freq_watt_curve_body_len : ℕ
freq_watt_curve_body_len = 10 + 1 * 58

abbrev pub freq_watt_curve_body_hz1_off : ℕ
freq_watt_curve_body_hz1_off = 11

abbrev pub freq_watt_curve_body_hz2_off : ℕ
freq_watt_curve_body_hz2_off = 13

abbrev pub freq_watt_curve_body_hz3_off : ℕ
freq_watt_curve_body_hz3_off = 15

abbrev pub freq_watt_curve_body_hz4_off : ℕ
freq_watt_curve_body_hz4_off = 17

module _ (fl : Floats) where
  open fl use {F, lit, lt, le, add, mul, to_u16}

  unfoldable pub hz_centi16 : F → ℕ
  hz_centi16 hz =
      if le hz (lit 0 0)
      then 0
      else (let v = mul hz (lit 100 0) in
          if lt (lit 65535 0) v then 65535 else to_u16 (add v (lit 5 1)))

  -- All four thresholds are there.
  abbrev pub has_all : ProtectionParams F → Bool
  has_all p = p.has (codes "DH") && p.has (codes "DI") && p.has (codes "CB") && p.has (codes "CC")

  unfoldable pub emit_freq_watt_curve : ProtectionParams F → List ℕ
  emit_freq_watt_curve p =
      freq_watt_curve_model_id
        ∷ freq_watt_curve_body_len
        ∷ 1
        ∷ (if has_all p && mode_active fl p.of_droop_mode then 1 else 0)
        ∷ 0
        ∷ 0
        ∷ 0
        ∷ 1
        ∷ 20
        ∷ scale_factor (negsuc 1)
        ∷ scale_factor (pos 0)
        ∷ scale_factor (pos 0)
        ∷ (if has_all p then 4 else 0)
        ∷ hz_centi16 p.of_curve_uf_low
        ∷ 0
        ∷ hz_centi16 p.of_curve_uf_high
        ∷ 100
        ∷ hz_centi16 p.of_curve_of_low
        ∷ 100
        ∷ hz_centi16 p.of_droop_end
        ∷ 0
        ∷ replicate 32 0
      ++ put_string (codes "APS-FW1") 8
      ++ 0 ∷ 0 ∷ 0 ∷ 0 ∷ 0 ∷ 100 ∷ 0 ∷ 0 ∷ 0 ∷ []

  pub emit_freq_watt_curve-IsModel :
      (p : ProtectionParams F)
      → IsModel freq_watt_curve_model_id freq_watt_curve_body_len (emit_freq_watt_curve p)
  unfolding emit_freq_watt_curve put_string
  emit_freq_watt_curve-IsModel p = (drop 2 (emit_freq_watt_curve p), refl, refl)
