-- ===== src/Server/FreqWattCurveWriter.antt =====
-- internal/server/freq_watt_curve_writer.go: writes to Model 134.
use apsystems_sunspec.Base.{
  ℕ, Bool, ◌||◌, some, none, List, [], ◌∷◌, ◌++◌, Str, codes, length, leb, ◌==◌, if◌then◌else◌,
}
use apsystems_sunspec.Base.Int.{pos}
use apsystems_sunspec.Floats.{Floats}
use apsystems_sunspec.Source.Database.{Database}
use apsystems_sunspec.Source.Snapshot.{Snapshot}
use apsystems_sunspec.Source.Writer.{
  aggregate_only_read, unmapped_unit, read_only, nothing_written, hz_not_positive, Action, after,
}
use apsystems_sunspec.Sunspec.FreqWattCurve.{
  freq_watt_curve_model_id, freq_watt_curve_body_len, freq_watt_curve_body_hz1_off,
  freq_watt_curve_body_hz2_off, freq_watt_curve_body_hz3_off, freq_watt_curve_body_hz4_off,
}
use apsystems_sunspec.Server.Profiles.{InverterFamily, family_for_model, dispatch}
use apsystems_sunspec.Server.World.{World, on_db, write_touches, read_field, inverter_of_unit}
use apsystems_sunspec.Server.FreqDroopWriter.{touches_read_only, track_expected}

-- A writable point: its offset, its parameter's long name and its code.
pub record FwHzPoint : Type 0 where
  pub body : ℕ
  pub aps : Str
  pub code : Str

abbrev pub freq_watt_curve_hz_points : List FwHzPoint
freq_watt_curve_hz_points =
    record {
      body = freq_watt_curve_body_hz1_off;
      aps = codes "Under_Frequency_Watt_Low_set";
      code = codes "DH";
    }
    ∷ record {
      body = freq_watt_curve_body_hz2_off;
      aps = codes "Under_Frequency_Watt_High_set";
      code = codes "DI";
    }
    ∷ record {
      body = freq_watt_curve_body_hz3_off;
      aps = codes "Over_frequency_Watt_Low_set";
      code = codes "CB";
    }
    ∷ record {
      body = freq_watt_curve_body_hz4_off;
      aps = codes "Over_frequency_Watt_High_set";
      code = codes "CC";
    }
    ∷ []

abbrev pub curve_writable : ℕ → Bool
curve_writable off =
    off == freq_watt_curve_body_hz1_off
    || off == freq_watt_curve_body_hz2_off
    || off == freq_watt_curve_body_hz3_off
    || off == freq_watt_curve_body_hz4_off

module _ (fl : Floats) (d : Database fl.F) where
  open fl use {F, lit, le, div, of_ℤ}

  -- float64(wire) / 100.0
  unfoldable pub hz_of_wire : ℕ → F
  hz_of_wire wire = div (of_ℤ (pos wire)) (lit 100 0)

  -- The points that a write touches, with the frequencies that it asks for.
  unfoldable pub expected_points : ℕ → List ℕ → List FwHzPoint → List (Str × F)
  expected_points addr_offset regs [] = []
  expected_points addr_offset regs (pt ∷ pts) =
      (if write_touches addr_offset regs pt.body
        then (pt.code, hz_of_wire (read_field addr_offset regs pt.body)) ∷ []
        else [])
      ++ expected_points addr_offset regs pts

  -- The body of the loop over the points.
  write_point : InverterFamily → Str → ℕ → List ℕ → FwHzPoint → Action (World d)
  write_point family inv_uid addr_offset regs pt w =
      if write_touches addr_offset regs pt.body
      then (let hz = hz_of_wire (read_field addr_offset regs pt.body) in
          if le hz (lit 0 0)
          then (some hz_not_positive, w)
          else on_db (dispatch d family inv_uid pt.aps hz) w)
      else (none, w)

  unfoldable pub write_points :
      InverterFamily → Str → ℕ → List ℕ → List FwHzPoint → Action (World d)
  unfolding write_point
  write_points family inv_uid addr_offset regs [] w = (none, w)
  write_points family inv_uid addr_offset regs (pt ∷ pts) w =
      after (write_point family inv_uid addr_offset regs pt w)
        (λ w'. write_points family inv_uid addr_offset regs pts w')

  write_curve : ℕ → InverterFamily → Str → ℕ → List ℕ → Action (World d)
  unfolding write_points expected_points track_expected touches_read_only
  write_curve uid family inv_uid addr_offset regs w =
      if touches_read_only curve_writable addr_offset regs 0 freq_watt_curve_body_len
      then (some read_only, w)
      else after (write_points family inv_uid addr_offset regs freq_watt_curve_hz_points w) (λ w'.
        let expected = expected_points addr_offset regs freq_watt_curve_hz_points in
        if length expected == 0
        then (some nothing_written, w')
        else (none, track_expected fl d uid freq_watt_curve_model_id expected w'))

  unfoldable pub freq_watt_curve_apply : Snapshot F → ℕ → ℕ → List ℕ → Action (World d)
  unfolding write_curve
  freq_watt_curve_apply snap uid addr_offset regs w =
      if leb uid 1 then (some aggregate_only_read, w) else elim (inverter_of_unit snap uid) [
        | none ↦ (some unmapped_unit, w)
        | some inv ↦ write_curve uid (family_for_model inv.model) inv.uid addr_offset regs w
      ]
