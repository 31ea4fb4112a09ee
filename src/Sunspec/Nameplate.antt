-- ===== src/Sunspec/Nameplate.antt =====
-- internal/sunspec/nameplate.go: Model 120, the ratings.
use apsystems_sunspec.Base.{ℕ, refl, List, [], ◌∷◌, if◌then◌else◌, drop}
use apsystems_sunspec.Base.Int.{ℤ, pos, negsuc, ltb_ℤ, leb_ℤ}
use apsystems_sunspec.Base.Word.{u16_of_ℤ, i32_of_ℤ}
use apsystems_sunspec.Floats.{Floats}
use apsystems_sunspec.Source.Inverter.{Inverter, NameplateTable, nameplate_w}
use apsystems_sunspec.Source.Snapshot.{Snapshot, total_nameplate_w}
use apsystems_sunspec.Sunspec.Bank.{scale_factor, not_impl_s16, not_impl_u16, clamp_i32}
use apsystems_sunspec.Sunspec.Chain.{IsModel}

abbrev pub nameplate_model_id : ℕ
nameplate_model_id = 120

abbrev pub nameplate_body_len : ℕ
nameplate_body_len = 26

-- uint16(clampInt32(int32(z), 0, 65535))
unfoldable pub clamped_u16 : ℤ → ℕ
clamped_u16 z = u16_of_ℤ (clamp_i32 (i32_of_ℤ z) (pos 0) (pos 65535))

module _ (fl : Floats) (tbl : NameplateTable) where
  open fl use {F, lit, add, mul, div, of_ℤ, to_u16}

  -- ARtg, from the watts at 230 V, in tenths of an ampere.
  unfoldable pub amps_rating : ℤ → ℕ
  amps_rating w =
      if ltb_ℤ (pos 0) w
      then to_u16 (add (mul (div (of_ℤ w) (lit 230 0)) (lit 10 0)) (lit 5 1))
      else 0

  -- The section for a rating of `w` watts, which the two emitters write alike.
  nameplate_regs : ℤ → List ℕ
  nameplate_regs w =
      nameplate_model_id
      ∷ nameplate_body_len
      ∷ 4
      ∷ clamped_u16 w
      ∷ scale_factor (pos 0)
      ∷ clamped_u16 w
      ∷ scale_factor (pos 0)
      ∷ not_impl_s16
      ∷ not_impl_s16
      ∷ not_impl_s16
      ∷ not_impl_s16
      ∷ scale_factor (pos 0)
      ∷ amps_rating w
      ∷ scale_factor (negsuc 0)
      ∷ 1000
      ∷ 1000
      ∷ 1000
      ∷ 1000
      ∷ scale_factor (negsuc 2)
      ∷ not_impl_u16
      ∷ scale_factor (pos 0)
      ∷ not_impl_u16
      ∷ scale_factor (pos 0)
      ∷ not_impl_u16
      ∷ scale_factor (pos 0)
      ∷ not_impl_u16
      ∷ scale_factor (pos 0)
      ∷ 0
      ∷ []

  unfoldable pub emit_nameplate : Snapshot F → List ℕ
  unfolding nameplate_regs
  emit_nameplate s =
      nameplate_regs (
        if leb_ℤ s.system_max_power_w (pos 0)
        then total_nameplate_w tbl s
        else s.system_max_power_w)

  unfoldable pub emit_nameplate_per_inverter : Inverter F → List ℕ
  unfolding nameplate_regs
  emit_nameplate_per_inverter inv = nameplate_regs (nameplate_w tbl inv)

  pub emit_nameplate-IsModel :
      (s : Snapshot F) → IsModel nameplate_model_id nameplate_body_len (emit_nameplate s)
  unfolding emit_nameplate
  emit_nameplate-IsModel s = (drop 2 (emit_nameplate s), refl, refl)

  pub emit_nameplate_per_inverter-IsModel :
      (inv : Inverter F)
      → IsModel nameplate_model_id nameplate_body_len (emit_nameplate_per_inverter inv)
  unfolding emit_nameplate_per_inverter
  emit_nameplate_per_inverter-IsModel inv = (drop 2 (emit_nameplate_per_inverter inv), refl, refl)
