-- ===== src/Sunspec/InverterFloat.antt =====
-- internal/sunspec/inverter_float.go: the float32 models 111 to 113.
use apsystems_sunspec.Base.{
  ℕ, ◌+◌, ◌/◌, ◌^◌, refl, ◌&&◌, List, [], ◌∷◌, ◌++◌, if◌then◌else◌, drop, ltb,
}
use apsystems_sunspec.Base.Int.{pos, ltb_ℤ, leb_ℤ}
use apsystems_sunspec.Base.Word.{u16}
use apsystems_sunspec.Floats.{Floats}
use apsystems_sunspec.Source.Inverter.{EventBits, Inverter}
use apsystems_sunspec.Source.Snapshot.{Snapshot, aggregate_event_bits}
use apsystems_sunspec.Sunspec.Bank.{acc32, not_impl_u32}
use apsystems_sunspec.Sunspec.Chain.{IsModel}
use apsystems_sunspec.Sunspec.Events.{
  map_apsystems_to_sunspec_evt1, aggregate_operating_state, inverter_operating_state,
}
use apsystems_sunspec.Sunspec.Phases.{PhaseMode, model_id, phases_used, derive_phase_currents}

abbrev pub inverter_model_float_body_len : ℕ
inverter_model_float_body_len = 60

abbrev pub inverter_model_single_phase_float : ℕ
inverter_model_single_phase_float = 111

abbrev pub put_float32_not_impl : List ℕ
put_float32_not_impl = 0x7FC0 ∷ 0 ∷ []

-- The six event fields that close the inverter models.
abbrev pub event_regs : EventBits → List ℕ
event_regs b =
    acc32 (map_apsystems_to_sunspec_evt1 b)
    ++ acc32 not_impl_u32
    ++ acc32 b.bits0
    ++ acc32 b.bits1
    ++ acc32 b.bits2
    ++ acc32 not_impl_u32

module _ (fl : Floats) where
  open fl use {F, F32, lit, to_f32, f32_of_ℤ, f32_div, f32_pos, f32_bits}

  abbrev pub put_float32 : F32 → List ℕ
  put_float32 v = u16 (f32_bits v / 2 ^ 16) ∷ u16 (f32_bits v) ∷ []

  unfoldable pub put_float32_phase : F32 → ℕ → ℕ → List ℕ
  put_float32_phase v idx used =
      (if ltb idx used then u16 (f32_bits v / 2 ^ 16) else 0x7FC0)
      ∷ (if ltb idx used then u16 (f32_bits v) else 0)
      ∷ []

  -- float32(n) / 10
  abbrev tenths : ℕ → F32
  tenths n = f32_div (f32_of_ℤ (pos n)) (f32_of_ℤ (pos 10))

  unfoldable pub emit_inverter_float : Snapshot F → PhaseMode → List ℕ
  unfolding put_float32_phase
  emit_inverter_float s phase =
      let used = phases_used phase in
      let amps = derive_phase_currents fl s in
      let v = to_f32 s.grid_voltage_v in
      (model_id phase + 10) ∷ inverter_model_float_body_len ∷ put_float32 (tenths amps.total)
      ++ put_float32_phase (tenths amps.phase_a) 0 used
      ++ put_float32_phase (tenths amps.phase_b) 1 used
      ++ put_float32_phase (tenths amps.phase_c) 2 used
      ++ put_float32_not_impl
      ++ put_float32_not_impl
      ++ put_float32_not_impl
      ++ put_float32_phase v 0 used
      ++ put_float32_phase v 1 used
      ++ put_float32_phase v 2 used
      ++ put_float32 (f32_of_ℤ s.system_power_w)
      ++ put_float32 (to_f32 s.grid_frequency_hz)
      ++ put_float32_not_impl
      ++ put_float32_not_impl
      ++ put_float32_not_impl
      ++ put_float32 (f32_of_ℤ (pos s.lifetime_energy_wh))
      ++ put_float32_not_impl
      ++ put_float32_not_impl
      ++ put_float32_not_impl
      ++ put_float32 (f32_of_ℤ s.max_temperature_c)
      ++ put_float32_not_impl
      ++ put_float32_not_impl
      ++ put_float32_not_impl
      ++ aggregate_operating_state s.inverter_online_count s.system_power_w
        ∷ 0
        ∷ event_regs (aggregate_event_bits s)

  pub emit_inverter_float-IsModel :
      (s : Snapshot F) (phase : PhaseMode)
      → IsModel (model_id phase + 10) inverter_model_float_body_len (emit_inverter_float s phase)
  unfolding emit_inverter_float
  emit_inverter_float-IsModel s phase = (drop 2 (emit_inverter_float s phase), refl, refl)

  -- The amperes of one inverter, zero where they cannot be derived.
  inverter_amps : Inverter F → F32
  inverter_amps inv =
      if ltb_ℤ (pos 0) inv.ac_voltage_v && leb_ℤ (pos 0) inv.ac_power_w
      then f32_div (f32_of_ℤ inv.ac_power_w) (f32_of_ℤ inv.ac_voltage_v)
      else f32_of_ℤ (pos 0)

  -- float32 of a frequency, or the sentinel where it is not positive.
  hz_regs : F32 → List ℕ
  hz_regs hz =
      (if f32_pos hz then u16 (f32_bits hz / 2 ^ 16) else 0x7FC0)
      ∷ (if f32_pos hz then u16 (f32_bits hz) else 0)
      ∷ []

  unfoldable pub emit_inverter_float_per_inverter : Inverter F → List ℕ
  unfolding inverter_amps hz_regs
  emit_inverter_float_per_inverter inv =
      inverter_model_single_phase_float
        ∷ inverter_model_float_body_len
        ∷ put_float32 (inverter_amps inv)
      ++ put_float32 (inverter_amps inv)
      ++ put_float32_not_impl
      ++ put_float32_not_impl
      ++ put_float32_not_impl
      ++ put_float32_not_impl
      ++ put_float32_not_impl
      ++ put_float32 (f32_of_ℤ inv.ac_voltage_v)
      ++ put_float32_not_impl
      ++ put_float32_not_impl
      ++ put_float32 (f32_of_ℤ inv.ac_power_w)
      ++ hz_regs (to_f32 inv.frequency_hz)
      ++ put_float32_not_impl
      ++ put_float32_not_impl
      ++ put_float32_not_impl
      ++ put_float32 (f32_of_ℤ (pos 0))
      ++ put_float32_not_impl
      ++ put_float32_not_impl
      ++ put_float32_not_impl
      ++ put_float32 (f32_of_ℤ inv.temperature_c)
      ++ put_float32_not_impl
      ++ put_float32_not_impl
      ++ put_float32_not_impl
      ++ inverter_operating_state inv.online inv.ac_power_w ∷ 0 ∷ event_regs inv.event_bits

  pub emit_inverter_float_per_inverter-IsModel :
      (inv : Inverter F)
      → IsModel inverter_model_single_phase_float inverter_model_float_body_len
          (emit_inverter_float_per_inverter inv)
  unfolding emit_inverter_float_per_inverter
  emit_inverter_float_per_inverter-IsModel inv =
      (drop 2 (emit_inverter_float_per_inverter inv), refl, refl)
