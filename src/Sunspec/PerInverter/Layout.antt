-- ===== src/Sunspec/PerInverter/Layout.antt =====
-- The bank of one inverter, internal/sunspec/per_inverter.go, is a chain of models at fixed
-- addresses.
use apsystems_sunspec.Base.{ℕ, ◌≡◌, ap, List, [], ◌∷◌, ◌++◌, arith}
use apsystems_sunspec.Floats.{Floats}
use apsystems_sunspec.Source.Inverter.{Inverter, NameplateTable, panel_powers}
use apsystems_sunspec.Source.Protection.{ProtectionParams}
use apsystems_sunspec.Sunspec.Bank.{base_register, end_model_id}
use apsystems_sunspec.Sunspec.Chain.{
  Model, chain_regs, chain, Layout, layout_of, HasLayout, HasLayout-model, HasLayout-append,
}
use apsystems_sunspec.Sunspec.Options.{Options}
use apsystems_sunspec.Sunspec.InverterFloat.{emit_inverter_float_per_inverter-IsModel}
use apsystems_sunspec.Sunspec.DcData.{emit_dc_data_float_per_inverter-IsModel}
use apsystems_sunspec.Sunspec.Nameplate.{emit_nameplate_per_inverter-IsModel}
use apsystems_sunspec.Sunspec.Controls.{emit_controls-IsModel, per_inverter_controls_state}
use apsystems_sunspec.Sunspec.EnterService.{emit_enter_service-IsModel}
use apsystems_sunspec.Sunspec.FreqDroop.{emit_freq_droop-IsModel}
use apsystems_sunspec.Sunspec.FreqWattCurve.{emit_freq_watt_curve-IsModel}
use apsystems_sunspec.Sunspec.Mppt.{entries_of, emit_per_inverter_mppt, length-entries_of-le}
use apsystems_sunspec.Sunspec.Encoder.{common_regs-IsModel}
use apsystems_sunspec.Sunspec.Encoder.Layout.{
  control_layout, optional_mppt, optional_mppt-HasLayout, emit_der_trip_models-HasLayout,
}
use apsystems_sunspec.Sunspec.PerInverter.{
  emit_common_per_inverter, emit_single_phase-IsModel, per_inverter_sections, encode_per_inverter,
}

-- The models before Model 123; there is no Model 121.
abbrev pub per_inverter_head : Layout
per_inverter_head = (1, 66) ∷ (101, 50) ∷ (111, 60) ∷ (114, 48) ∷ (120, 26) ∷ []

module _ (fl : Floats) (tbl : NameplateTable) where
  open fl use {F, of_ℤ}

  abbrev pub per_inverter_layout : Inverter F → Options → Layout
  per_inverter_layout inv opt =
      per_inverter_head
      ++ (control_layout ++ optional_mppt opt.disable_mppt (entries_of inv 0 (panel_powers inv)))

  per_inverter_sections-HasLayout :
      (inv : Inverter F) (unit_id : ℕ) (opt : Options) (prot : ProtectionParams F)
      → HasLayout (per_inverter_layout inv opt) (per_inverter_sections fl tbl inv unit_id opt prot)
  unfolding per_inverter_sections emit_common_per_inverter emit_per_inverter_mppt
  per_inverter_sections-HasLayout inv unit_id opt prot =
      let v_nom = of_ℤ inv.ac_voltage_v in
      HasLayout-append (HasLayout-model (common_regs-IsModel _ _ _ _ unit_id)) (
        HasLayout-append (HasLayout-model (emit_single_phase-IsModel fl tbl inv)) (
          HasLayout-append (HasLayout-model (emit_inverter_float_per_inverter-IsModel fl inv)) (
            HasLayout-append (HasLayout-model (emit_dc_data_float_per_inverter-IsModel fl inv)) (
              HasLayout-append (HasLayout-model (emit_nameplate_per_inverter-IsModel fl tbl inv)) (
                HasLayout-append
                  (HasLayout-model (emit_controls-IsModel (per_inverter_controls_state tbl inv)))
                  (HasLayout-append (emit_der_trip_models-HasLayout fl prot v_nom) (
                    HasLayout-append (HasLayout-model (emit_enter_service-IsModel fl prot v_nom)) (
                      HasLayout-append (HasLayout-model (emit_freq_droop-IsModel fl prot _)) (
                        HasLayout-append (HasLayout-model (emit_freq_watt_curve-IsModel fl prot)) (
                          optional_mppt-HasLayout fl opt.disable_mppt
                            (entries_of inv 0 (panel_powers inv))
                            (omega (arith, length-entries_of-le inv))))))))))))

  -- The bank of an inverter is a chain of the models of `per_inverter_layout`, each with the length
  -- that it declares.
  pub encode_per_inverter-chain :
      (inv : Inverter F) (unit_id : ℕ) (opt : Options) (prot : ProtectionParams F)
      → (ms : List Model) × (layout_of ms ≡ per_inverter_layout inv opt)
        × (encode_per_inverter fl tbl inv unit_id opt prot ≡ chain ms)
  unfolding encode_per_inverter chain chain_regs
  encode_per_inverter-chain inv unit_id opt prot =
      let (ms, lay, regs) = per_inverter_sections-HasLayout inv unit_id opt prot in
      (
        ms,
        lay,
        ap
            (λ r. record {
              regs = 0x5375 ∷ 0x6E53 ∷ r ++ end_model_id ∷ 0 ∷ [];
              base = base_register;
            })
            regs,
      )
