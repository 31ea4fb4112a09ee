-- ===== src/Sunspec/Encoder.antt =====
-- Encode of internal/sunspec/encoder.go: the aggregate bank of unit 1.
pub mod Layout
pub mod Registers
use apsystems_sunspec.Base.{
  ℕ, ◌+◌, ◌≡◌, refl, List, [], ◌∷◌, ◌++◌, Str, is_empty, if◌then◌else◌, drop, codes,
}
use apsystems_sunspec.Base.Int.{pos, negsuc}
use apsystems_sunspec.Base.Word.{u16_of_ℤ}
use apsystems_sunspec.Floats.{Floats}
use apsystems_sunspec.Source.Inverter.{NameplateTable}
use apsystems_sunspec.Source.Snapshot.{Snapshot, aggregate_event_bits}
use apsystems_sunspec.Sunspec.Bank.{
  Bank, base_register, acc32, put_string, scale_factor, clamp_i32, not_impl_u16, not_impl_s16,
  end_model_id,
}
use apsystems_sunspec.Sunspec.Chain.{IsModel}
use apsystems_sunspec.Sunspec.Options.{
  Options, default_manufacturer, default_model_name, str_or, serial_for,
}
use apsystems_sunspec.Sunspec.Phases.{
  PhaseMode, phase_auto, model_id, phases_used, phase_value_u16, detect_phase,
  derive_phase_currents,
}
use apsystems_sunspec.Sunspec.Events.{aggregate_operating_state}
use apsystems_sunspec.Sunspec.InverterFloat.{event_regs, emit_inverter_float}
use apsystems_sunspec.Sunspec.DcData.{emit_dc_data_float}
use apsystems_sunspec.Sunspec.Nameplate.{emit_nameplate}
use apsystems_sunspec.Sunspec.Settings.{emit_basic_settings}
use apsystems_sunspec.Sunspec.Controls.{emit_controls, aggregate_controls_state}
use apsystems_sunspec.Sunspec.DerTrip.{emit_der_trip_models, aggregate_protection}
use apsystems_sunspec.Sunspec.EnterService.{emit_enter_service}
use apsystems_sunspec.Sunspec.FreqDroop.{emit_freq_droop, lookup_write_rslt, freq_droop_model_id}
use apsystems_sunspec.Sunspec.FreqWattCurve.{emit_freq_watt_curve}
use apsystems_sunspec.Sunspec.Mppt.{emit_multi_mppt, cabinet_temperature}
use apsystems_sunspec.Sunspec.Vendor.{emit_vendor}

abbrev pub common_model_id : ℕ
common_model_id = 1

abbrev pub common_model_body_len : ℕ
common_model_body_len = 66

abbrev pub inverter_model_body_len : ℕ
inverter_model_body_len = 50

-- The Common Model over its strings and the device address.
unfoldable pub common_regs : Str → Str → Str → Str → ℕ → List ℕ
common_regs mn md vr sn da =
    common_model_id ∷ common_model_body_len ∷ put_string mn 16
    ++ put_string md 16
    ++ put_string [] 8
    ++ put_string vr 8
    ++ put_string sn 16
    ++ da ∷ 0 ∷ []

pub common_regs-IsModel :
    (mn md vr sn : Str) (da : ℕ)
    → IsModel common_model_id common_model_body_len (common_regs mn md vr sn da)
unfolding common_regs put_string
common_regs-IsModel mn md vr sn da = (drop 2 (common_regs mn md vr sn da), refl, refl)

unfoldable pub phase_of : {F : Type 0} → Snapshot F → PhaseMode → PhaseMode
phase_of s phase_auto = detect_phase s
phase_of s p = p

module _ (fl : Floats) (tbl : NameplateTable) where
  open fl use {F, lit, add, mul, to_u16}

  unfoldable pub emit_common : Snapshot F → Options → List ℕ
  unfolding common_regs
  emit_common s opt =
      common_regs (str_or opt.manufacturer default_manufacturer)
        (str_or opt.model_name (str_or s.model_name default_model_name))
        (str_or s.firmware (codes "0")) (serial_for s opt) 1

  -- Model 101, 102 or 103.
  unfoldable pub emit_inverter : Snapshot F → PhaseMode → List ℕ
  emit_inverter s phase =
      let used = phases_used phase in
      let amps = derive_phase_currents fl s in
      let v = to_u16 (add s.grid_voltage_v (lit 5 1)) in
      model_id phase
        ∷ inverter_model_body_len
        ∷ amps.total
        ∷ phase_value_u16 amps.phase_a 0 used
        ∷ phase_value_u16 amps.phase_b 1 used
        ∷ phase_value_u16 amps.phase_c 2 used
        ∷ scale_factor (negsuc 0)
        ∷ not_impl_u16
        ∷ not_impl_u16
        ∷ not_impl_u16
        ∷ phase_value_u16 v 0 used
        ∷ phase_value_u16 v 1 used
        ∷ phase_value_u16 v 2 used
        ∷ scale_factor (pos 0)
        ∷ u16_of_ℤ (clamp_i32 s.system_power_w (negsuc 32759) (pos 32760))
        ∷ scale_factor (pos 0)
        ∷ to_u16 (add (mul s.grid_frequency_hz (lit 100 0)) (lit 5 1))
        ∷ scale_factor (negsuc 1)
        ∷ not_impl_s16
        ∷ scale_factor (pos 0)
        ∷ not_impl_s16
        ∷ scale_factor (pos 0)
        ∷ not_impl_s16
        ∷ scale_factor (pos 0)
        ∷ acc32 s.lifetime_energy_wh
      ++ scale_factor (pos 0)
        ∷ not_impl_u16
        ∷ scale_factor (pos 0)
        ∷ not_impl_u16
        ∷ scale_factor (pos 0)
        ∷ not_impl_s16
        ∷ scale_factor (pos 0)
        ∷ cabinet_temperature s.max_temperature_c
        ∷ not_impl_s16
        ∷ not_impl_s16
        ∷ not_impl_s16
        ∷ scale_factor (pos 0)
        ∷ aggregate_operating_state s.inverter_online_count s.system_power_w
        ∷ 0
        ∷ event_regs (aggregate_event_bits s)

  pub emit_inverter-IsModel :
      (s : Snapshot F) (phase : PhaseMode)
      → IsModel (model_id phase) inverter_model_body_len (emit_inverter s phase)
  unfolding emit_inverter
  emit_inverter-IsModel s phase = (drop 2 (emit_inverter s phase), refl, refl)

  -- The sections between the marker and the end, in the order of the source.
  unfoldable pub encode_sections : Snapshot F → Options → List ℕ
  encode_sections s opt =
      let phase = phase_of s opt.phase in
      let prot = aggregate_protection fl s in
      emit_common s opt
      ++ (emit_inverter s phase
          ++ (emit_inverter_float fl s phase
              ++ (emit_dc_data_float fl s
                  ++ (emit_nameplate fl tbl s
                      ++ (emit_basic_settings fl tbl s
                          ++ (emit_controls (aggregate_controls_state tbl s)
                              ++ (emit_der_trip_models fl prot s.grid_voltage_v
                                  ++ (emit_enter_service fl prot s.grid_voltage_v
                                      ++ (emit_freq_droop fl prot
                                            (lookup_write_rslt opt.write_rslt 1 freq_droop_model_id)
                                          ++ (emit_freq_watt_curve fl prot
                                              ++ ((if opt.disable_mppt
                                                    then []
                                                    else emit_multi_mppt fl s)
                                                  ++ emit_vendor tbl s)))))))))))

  unfoldable pub encode : Snapshot F → Options → Bank
  unfolding encode_sections
  encode s opt = record {
    regs = 0x5375 ∷ 0x6E53 ∷ encode_sections s opt ++ end_model_id ∷ 0 ∷ [];
    base = base_register;
  }
