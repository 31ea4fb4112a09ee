-- ===== src/Sunspec/Encoder/Layout.antt =====
-- The aggregate bank of internal/sunspec/encoder.go is a chain of models at fixed addresses.
use apsystems_sunspec.Base.{
  ◌+◌, ◌≤◌, ◌<◌, ◌≡◌, ap, Bool, true, false, List, [], ◌∷◌, ◌++◌, if◌then◌else◌, length, arith,
}
use apsystems_sunspec.Floats.{Floats}
use apsystems_sunspec.Source.Inverter.{NameplateTable}
use apsystems_sunspec.Source.Snapshot.{Snapshot}
use apsystems_sunspec.Source.Protection.{ProtectionParams}
use apsystems_sunspec.Sunspec.Bank.{base_register, end_model_id}
use apsystems_sunspec.Sunspec.Chain.{
  Model, chain_regs, chain, Layout, layout_of, HasLayout, HasLayout-nil, HasLayout-model,
  HasLayout-append,
}
use apsystems_sunspec.Sunspec.Options.{Options}
use apsystems_sunspec.Sunspec.Phases.{PhaseMode, model_id}
use apsystems_sunspec.Sunspec.InverterFloat.{emit_inverter_float-IsModel}
use apsystems_sunspec.Sunspec.DcData.{emit_dc_data_float-IsModel}
use apsystems_sunspec.Sunspec.Nameplate.{emit_nameplate-IsModel}
use apsystems_sunspec.Sunspec.Settings.{emit_basic_settings-IsModel}
use apsystems_sunspec.Sunspec.Controls.{emit_controls-IsModel, aggregate_controls_state}
use apsystems_sunspec.Sunspec.DerTrip.{
  emit_der_trip_models, emit_der_trip_v-IsModel, emit_der_trip_hz-IsModel, aggregate_protection,
  lv_tier, hv_tier, lf_tier, hf_tier,
}
use apsystems_sunspec.Sunspec.EnterService.{emit_enter_service-IsModel}
use apsystems_sunspec.Sunspec.FreqDroop.{emit_freq_droop-IsModel}
use apsystems_sunspec.Sunspec.FreqWattCurve.{emit_freq_watt_curve-IsModel}
use apsystems_sunspec.Sunspec.Mppt.{
  PanelEntry, mppt_layout, mppt_section, mppt_section-HasLayout, emit_multi_mppt, panels_of,
  length-panels_of-le,
}
use apsystems_sunspec.Sunspec.Vendor.{vendor_layout, emit_vendor-HasLayout}
use apsystems_sunspec.Sunspec.Encoder.{
  common_regs-IsModel, phase_of, emit_common, emit_inverter-IsModel, encode_sections, encode,
}

-- Models 123 to 134, which both kinds of bank have.
abbrev pub control_layout : Layout
control_layout =
    (123, 24)
    ∷ (707, 38)
    ∷ (708, 38)
    ∷ (709, 47)
    ∷ (710, 47)
    ∷ (703, 17)
    ∷ (711, 22)
    ∷ (134, 68)
    ∷ []

-- The models before them in the aggregate bank; the identifiers depend on the phase.
abbrev pub aggregate_head : PhaseMode → Layout
aggregate_head phase =
    (1, 66)
    ∷ (model_id phase, 50)
    ∷ (model_id phase + 10, 60)
    ∷ (114, 48)
    ∷ (120, 26)
    ∷ (121, 30)
    ∷ []

-- Multi-MPPT, where it is on.
abbrev pub optional_mppt : {F : Type 0} → Bool → List (PanelEntry F) → Layout
optional_mppt off es = if off then [] else mppt_layout es

module _ (fl : Floats) where
  open fl use {F}

  pub emit_der_trip_models-HasLayout :
      (p : ProtectionParams F) (v : F)
      → HasLayout ((707, 38) ∷ (708, 38) ∷ (709, 47) ∷ (710, 47) ∷ []) (emit_der_trip_models fl p v)
  unfolding emit_der_trip_models
  emit_der_trip_models-HasLayout p v =
      HasLayout-append (HasLayout-model (emit_der_trip_v-IsModel 707 (lv_tier fl p v))) (
        HasLayout-append (HasLayout-model (emit_der_trip_v-IsModel 708 (hv_tier fl p v))) (
          HasLayout-append (HasLayout-model (emit_der_trip_hz-IsModel 709 (lf_tier fl p v)))
            (HasLayout-model (emit_der_trip_hz-IsModel 710 (hf_tier fl p v)))))

  pub optional_mppt-HasLayout :
      (off : Bool) (es : List (PanelEntry F))
      → length es < 3277
      → HasLayout (optional_mppt off es) (if off then [] else mppt_section fl es)
  optional_mppt-HasLayout true es few = HasLayout-nil
  optional_mppt-HasLayout false es few = mppt_section-HasLayout fl es few

module _ (fl : Floats) (tbl : NameplateTable) where
  open fl use {F}

  abbrev pub aggregate_layout : Snapshot F → Options → Layout
  aggregate_layout s opt =
      aggregate_head (phase_of s opt.phase)
      ++ (control_layout
          ++ (optional_mppt opt.disable_mppt (panels_of s.inverters) ++ vendor_layout tbl s))

  encode_sections-HasLayout :
      (s : Snapshot F) (opt : Options)
      → length s.inverters ≤ 254
      → HasLayout (aggregate_layout s opt) (encode_sections fl tbl s opt)
  unfolding encode_sections emit_common emit_multi_mppt
  encode_sections-HasLayout s opt few =
      let phase = phase_of s opt.phase in
      let prot = aggregate_protection fl s in
      HasLayout-append (HasLayout-model (common_regs-IsModel _ _ _ _ 1)) (
        HasLayout-append (HasLayout-model (emit_inverter-IsModel fl tbl s phase)) (
          HasLayout-append (HasLayout-model (emit_inverter_float-IsModel fl s phase)) (
            HasLayout-append (HasLayout-model (emit_dc_data_float-IsModel fl s)) (
              HasLayout-append (HasLayout-model (emit_nameplate-IsModel fl tbl s)) (
                HasLayout-append (HasLayout-model (emit_basic_settings-IsModel fl tbl s)) (
                  HasLayout-append
                    (HasLayout-model (emit_controls-IsModel (aggregate_controls_state tbl s)))
                    (HasLayout-append (emit_der_trip_models-HasLayout fl prot s.grid_voltage_v) (
                      HasLayout-append
                        (HasLayout-model (emit_enter_service-IsModel fl prot s.grid_voltage_v))
                        (HasLayout-append (HasLayout-model (emit_freq_droop-IsModel fl prot _)) (
                          HasLayout-append (HasLayout-model (emit_freq_watt_curve-IsModel fl prot))
                            (HasLayout-append
                              (optional_mppt-HasLayout fl opt.disable_mppt (panels_of s.inverters)
                                (omega (arith, length-panels_of-le s.inverters)))
                              (emit_vendor-HasLayout tbl s (omega arith)))))))))))))

  -- The aggregate bank is a chain of the models of `aggregate_layout`, each with the length that it
  -- declares, for a fleet of at most 254 inverters.
  pub encode-chain :
      (s : Snapshot F) (opt : Options)
      → length s.inverters ≤ 254
      → (ms : List Model) × (layout_of ms ≡ aggregate_layout s opt)
        × (encode fl tbl s opt ≡ chain ms)
  unfolding encode chain chain_regs
  encode-chain s opt few =
      let (ms, lay, regs) = encode_sections-HasLayout s opt few in
      (
        ms,
        lay,
        ap
            (λ r. record {
              regs = 0x5375 ∷ 0x6E53 ∷ r ++ end_model_id ∷ 0 ∷ [];
              base = base_register;
            })
            regs,
      )
