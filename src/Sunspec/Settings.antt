-- ===== src/Sunspec/Settings.antt =====
-- internal/sunspec/settings.go: Model 121, the basic settings.
use apsystems_sunspec.Base.{ℕ, refl, ◌||◌, ◌&&◌, List, [], ◌∷◌, if◌then◌else◌, drop}
use apsystems_sunspec.Base.Int.{pos, negsuc, ltb_ℤ, leb_ℤ}
use apsystems_sunspec.Base.Word.{u16_of_ℤ}
use apsystems_sunspec.Floats.{Floats}
use apsystems_sunspec.Source.Inverter.{NameplateTable}
use apsystems_sunspec.Source.Snapshot.{Snapshot, total_limited_w, nominal_v_ref_v}
use apsystems_sunspec.Sunspec.Bank.{scale_factor, not_impl_s16, not_impl_u16}
use apsystems_sunspec.Sunspec.Chain.{IsModel}

abbrev pub basic_settings_model_id : ℕ
basic_settings_model_id = 121

abbrev pub basic_settings_body_len : ℕ
basic_settings_body_len = 30

module _ (fl : Floats) (tbl : NameplateTable) where
  open fl use {F}

  unfoldable pub w_max : Snapshot F → ℕ
  w_max s =
      let limited = total_limited_w tbl s in
      if leb_ℤ limited (pos 0) || ltb_ℤ (pos 65535) limited then not_impl_u16 else u16_of_ℤ limited

  unfoldable pub v_ref : Snapshot F → ℕ
  v_ref s =
      let v = nominal_v_ref_v fl s in
      if ltb_ℤ (pos 0) v && ltb_ℤ v (pos 65535) then u16_of_ℤ v else not_impl_u16

  unfoldable pub emit_basic_settings : Snapshot F → List ℕ
  emit_basic_settings s =
      basic_settings_model_id
      ∷ basic_settings_body_len
      ∷ w_max s
      ∷ v_ref s
      ∷ not_impl_s16
      ∷ not_impl_u16
      ∷ not_impl_u16
      ∷ not_impl_u16
      ∷ not_impl_s16
      ∷ not_impl_s16
      ∷ not_impl_s16
      ∷ not_impl_s16
      ∷ not_impl_u16
      ∷ not_impl_s16
      ∷ not_impl_s16
      ∷ not_impl_s16
      ∷ not_impl_s16
      ∷ not_impl_u16
      ∷ not_impl_u16
      ∷ not_impl_u16
      ∷ not_impl_u16
      ∷ not_impl_u16
      ∷ scale_factor (pos 0)
      ∷ scale_factor (pos 0)
      ∷ scale_factor (pos 0)
      ∷ scale_factor (pos 0)
      ∷ scale_factor (pos 0)
      ∷ scale_factor (pos 0)
      ∷ scale_factor (pos 0)
      ∷ scale_factor (negsuc 2)
      ∷ scale_factor (negsuc 1)
      ∷ 0
      ∷ []

  pub emit_basic_settings-IsModel :
      (s : Snapshot F)
      → IsModel basic_settings_model_id basic_settings_body_len (emit_basic_settings s)
  unfolding emit_basic_settings
  emit_basic_settings-IsModel s = (drop 2 (emit_basic_settings s), refl, refl)
