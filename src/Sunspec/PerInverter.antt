-- ===== src/Sunspec/PerInverter.antt =====
-- EncodePerInverterWithProtection of internal/sunspec/per_inverter.go: the bank of one inverter.
pub mod Layout
pub mod Registers
use apsystems_sunspec.Base.{ℕ, ◌≡◌, refl, ◌&&◌, List, [], ◌∷◌, ◌++◌, Str, if◌then◌else◌, drop}
use apsystems_sunspec.Base.Int.{pos, negsuc, ltb_ℤ, leb_ℤ}
use apsystems_sunspec.Base.Word.{u8, u16_of_ℤ, i32_of_ℤ}
use apsystems_sunspec.Floats.{Floats}
use apsystems_sunspec.Source.Inverter.{Inverter, NameplateTable}
use apsystems_sunspec.Source.Protection.{ProtectionParams}
use apsystems_sunspec.Sunspec.Bank.{
  Bank, base_register, acc32, scale_factor, clamp_i32, not_impl_u16, not_impl_s16, end_model_id,
}
use apsystems_sunspec.Sunspec.Chain.{IsModel}
use apsystems_sunspec.Base.Strconv.{itoa}
use apsystems_sunspec.Sunspec.Options.{Options, default_manufacturer, str_or, inverter_model_label}
use apsystems_sunspec.Sunspec.Events.{inverter_operating_state}
use apsystems_sunspec.Sunspec.InverterFloat.{event_regs, emit_inverter_float_per_inverter}
use apsystems_sunspec.Sunspec.DcData.{emit_dc_data_float_per_inverter}
use apsystems_sunspec.Sunspec.Nameplate.{emit_nameplate_per_inverter}
use apsystems_sunspec.Sunspec.Controls.{emit_controls, per_inverter_controls_state}
use apsystems_sunspec.Sunspec.DerTrip.{emit_der_trip_models}
use apsystems_sunspec.Sunspec.EnterService.{emit_enter_service}
use apsystems_sunspec.Sunspec.FreqDroop.{emit_freq_droop, lookup_write_rslt, freq_droop_model_id}
use apsystems_sunspec.Sunspec.FreqWattCurve.{emit_freq_watt_curve}
use apsystems_sunspec.Sunspec.Mppt.{emit_per_inverter_mppt, cabinet_temperature}
use apsystems_sunspec.Sunspec.Encoder.{common_regs, inverter_model_body_len}

abbrev pub inverter_model_single_phase : ℕ
inverter_model_single_phase = 101

module _ (fl : Floats) (tbl : NameplateTable) where
  open fl use {F, lit, lt, add, mul, div, of_ℤ, to_u16}

  -- A and AphA, in tenths of an ampere; 0 where they cannot be derived.
  inverter_amps10 : Inverter F → ℕ
  inverter_amps10 inv =
      if ltb_ℤ (pos 0) inv.ac_voltage_v && leb_ℤ (pos 0) inv.ac_power_w
      then (let amps10 = mul (div (of_ℤ inv.ac_power_w) (of_ℤ inv.ac_voltage_v)) (lit 10 0) in
          if lt amps10 (lit 65535 0) then to_u16 (add amps10 (lit 5 1)) else 0)
      else 0

  inverter_volts : Inverter F → ℕ
  inverter_volts inv =
      if ltb_ℤ (pos 0) inv.ac_voltage_v && ltb_ℤ inv.ac_voltage_v (pos 65535)
      then u16_of_ℤ inv.ac_voltage_v
      else 0

  inverter_hz : Inverter F → ℕ
  inverter_hz inv =
      if lt (lit 0 0) inv.frequency_hz
      then to_u16 (add (mul inv.frequency_hz (lit 100 0)) (lit 5 1))
      else 0

  unfoldable pub emit_single_phase : Inverter F → List ℕ
  unfolding inverter_amps10 inverter_volts inverter_hz
  emit_single_phase inv =
      inverter_model_single_phase
        ∷ inverter_model_body_len
        ∷ inverter_amps10 inv
        ∷ inverter_amps10 inv
        ∷ not_impl_u16
        ∷ not_impl_u16
        ∷ scale_factor (negsuc 0)
        ∷ not_impl_u16
        ∷ not_impl_u16
        ∷ not_impl_u16
        ∷ inverter_volts inv
        ∷ not_impl_u16
        ∷ not_impl_u16
        ∷ scale_factor (pos 0)
        ∷ u16_of_ℤ (clamp_i32 (i32_of_ℤ inv.ac_power_w) (negsuc 32759) (pos 32760))
        ∷ scale_factor (pos 0)
        ∷ inverter_hz inv
        ∷ scale_factor (negsuc 1)
        ∷ not_impl_s16
        ∷ scale_factor (pos 0)
        ∷ not_impl_s16
        ∷ scale_factor (pos 0)
        ∷ not_impl_s16
        ∷ scale_factor (pos 0)
        ∷ acc32 0
      ++ scale_factor (pos 0)
        ∷ not_impl_u16
        ∷ scale_factor (pos 0)
        ∷ not_impl_u16
        ∷ scale_factor (pos 0)
        ∷ not_impl_s16
        ∷ scale_factor (pos 0)
        ∷ cabinet_temperature inv.temperature_c
        ∷ not_impl_s16
        ∷ not_impl_s16
        ∷ not_impl_s16
        ∷ scale_factor (pos 0)
        ∷ inverter_operating_state inv.online inv.ac_power_w
        ∷ 0
        ∷ event_regs inv.event_bits

  pub emit_single_phase-IsModel :
      (inv : Inverter F)
      → IsModel inverter_model_single_phase inverter_model_body_len (emit_single_phase inv)
  unfolding emit_single_phase
  emit_single_phase-IsModel inv = (drop 2 (emit_single_phase inv), refl, refl)

  unfoldable pub emit_common_per_inverter : Inverter F → ℕ → Options → List ℕ
  unfolding common_regs
  emit_common_per_inverter inv unit_id opt =
      common_regs (str_or opt.manufacturer default_manufacturer)
        (inverter_model_label inv.type_code) (itoa inv.software_ver) inv.uid unit_id

  -- The source also takes the ECU's identifier, which it does not use.
  unfoldable pub per_inverter_sections : Inverter F → ℕ → Options → ProtectionParams F → List ℕ
  per_inverter_sections inv unit_id opt prot =
      let v_nom = of_ℤ inv.ac_voltage_v in
      emit_common_per_inverter inv unit_id opt
      ++ (emit_single_phase inv
          ++ (emit_inverter_float_per_inverter fl inv
              ++ (emit_dc_data_float_per_inverter fl inv
                  ++ (emit_nameplate_per_inverter fl tbl inv
                      ++ (emit_controls (per_inverter_controls_state tbl inv)
                          ++ (emit_der_trip_models fl prot v_nom
                              ++ (emit_enter_service fl prot v_nom
                                  ++ (emit_freq_droop fl prot (
                                        lookup_write_rslt opt.write_rslt (u8 unit_id)
                                          freq_droop_model_id)
                                      ++ (emit_freq_watt_curve fl prot
                                          ++ (if opt.disable_mppt
                                              then []
                                              else emit_per_inverter_mppt fl inv))))))))))

  unfoldable pub encode_per_inverter : Inverter F → ℕ → Options → ProtectionParams F → Bank
  unfolding per_inverter_sections
  encode_per_inverter inv unit_id opt prot = record {
    regs = 0x5375 ∷ 0x6E53 ∷ per_inverter_sections inv unit_id opt prot ++ end_model_id ∷ 0 ∷ [];
    base = base_register;
  }
