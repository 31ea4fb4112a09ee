-- ===== src/Server/FreqDroopWriter.antt =====
-- internal/server/freq_droop_writer.go: writes to Model 711.
pub mod Ranges
use apsystems_sunspec.Base.{
  ℕ, zero, suc, ◌+◌, Bool, true, false, not, ◌&&◌, ◌||◌, Option, some, none, List, [], ◌∷◌, ◌++◌,
  Str, codes, length, leb, ltb, ◌==◌, if◌then◌else◌,
}
use apsystems_sunspec.Base.Int.{ℤ, pos}
use apsystems_sunspec.Floats.{Floats}
use apsystems_sunspec.Source.Database.{Database}
use apsystems_sunspec.Source.Inverter.{Inverter}
use apsystems_sunspec.Source.Protection.{ProtectionParams}
use apsystems_sunspec.Source.Snapshot.{Snapshot}
use apsystems_sunspec.Source.Writer.{
  Error, aggregate_only_read, unmapped_unit, read_only, nothing_written, trip_unknown,
  start_not_above_nominal, start_above_trip, slope_range, Action, after,
}
use apsystems_sunspec.Sunspec.FreqDroop.{freq_droop_model_id, is_int}
use apsystems_sunspec.Server.Profiles.{InverterFamily, family_for_model, dispatch}
use apsystems_sunspec.Server.Tracker.{track, protection_at}
use apsystems_sunspec.Server.World.{
  World, on_db, write_touches, read_field, u32_of, inverter_of_unit,
}

abbrev pub freq_droop_body_ena : ℕ
freq_droop_body_ena = 0

abbrev pub freq_droop_body_adpt_req : ℕ
freq_droop_body_adpt_req = 1

abbrev pub freq_droop_body_db_of_hi : ℕ
freq_droop_body_db_of_hi = 12

abbrev pub freq_droop_body_db_of_lo : ℕ
freq_droop_body_db_of_lo = 13

abbrev pub freq_droop_body_k_of : ℕ
freq_droop_body_k_of = 16

abbrev pub freq_droop_body_rsp_tms_hi : ℕ
freq_droop_body_rsp_tms_hi = 18

abbrev pub freq_droop_body_rsp_tms_lo : ℕ
freq_droop_body_rsp_tms_lo = 19

abbrev pub freq_droop_min_k_of : ℕ
freq_droop_min_k_of = 100

abbrev pub freq_droop_max_k_of : ℕ
freq_droop_max_k_of = 1500

-- The labels of the switch's first case.
abbrev pub droop_writable : ℕ → Bool
droop_writable off =
    off == 0 || off == 1 || off == 12 || off == 13 || off == 16 || off == 18 || off == 19

-- The loop over the body's offsets from `off` on: whether the write touches one that is not writable.
unfoldable pub touches_read_only : (ℕ → Bool) → ℕ → List ℕ → ℕ → ℕ → Bool
touches_read_only writable addr_offset regs off zero = false
touches_read_only writable addr_offset regs off (suc n) =
    (write_touches addr_offset regs off && not (writable off))
    || touches_read_only writable addr_offset regs (off + 1) n

-- Which fields a write covers.
pub record Wants : Type 0 where
  pub ena : Bool
  pub req : Bool
  pub db_of : Bool
  pub k_of : Bool
  pub rsp_tms : Bool

unfoldable pub wants_of : ℕ → List ℕ → Wants
wants_of addr_offset regs = record {
  ena = write_touches addr_offset regs freq_droop_body_ena;
  req = write_touches addr_offset regs freq_droop_body_adpt_req;
  db_of =
      write_touches addr_offset regs freq_droop_body_db_of_hi
      && write_touches addr_offset regs freq_droop_body_db_of_lo;
  k_of = write_touches addr_offset regs freq_droop_body_k_of;
  rsp_tms =
      write_touches addr_offset regs freq_droop_body_rsp_tms_hi
      && write_touches addr_offset regs freq_droop_body_rsp_tms_lo;
}

module _ (fl : Floats) (d : Database fl.F) where
  open fl use {F, lit, lt, le, add, sub, div, of_ℤ, to_int}

  -- HzStart, from a deadband in centihertz.
  unfoldable pub hz_start : ℕ → F
  hz_start db_of = add (lit 50 0) (div (of_ℤ (pos db_of)) (lit 100 0))

  unfoldable pub slope_of : ℕ → F
  slope_of k_of = div (of_ℤ (pos k_of)) (lit 10 0)

  unfoldable pub mode_val : ℕ → F → ℤ
  mode_val ena mode =
      if ena == 0 then pos 15 else if is_int (to_int mode) 13 then pos 13 else pos 14

  -- The wire values, and the inverter that they are for.
  pub record Request : Type 0 where
    pub family : InverterFamily
    pub inv_uid : Str
    pub prot : ProtectionParams F
    pub wants : Wants
    pub db_of : ℕ
    pub k_of : ℕ
    pub rsp_tms : ℕ
    pub ena : ℕ

  unfoldable pub request_of : Inverter F → ProtectionParams F → ℕ → List ℕ → Request
  request_of inv prot addr_offset regs =
      let field = read_field addr_offset regs in
      record {
        family = family_for_model inv.model;
        inv_uid = inv.uid;
        prot = prot;
        wants = wants_of addr_offset regs;
        db_of = u32_of (field freq_droop_body_db_of_hi) (field freq_droop_body_db_of_lo);
        k_of = field freq_droop_body_k_of;
        rsp_tms = u32_of (field freq_droop_body_rsp_tms_hi) (field freq_droop_body_rsp_tms_lo);
        ena = field freq_droop_body_ena;
      }

  send : Request → Str → F → Action (World d)
  send r param x = on_db (dispatch d r.family r.inv_uid param x)

  -- `if wantsDbOf`
  unfoldable pub write_start : Request → Action (World d)
  unfolding send
  write_start r w =
      if r.wants.db_of
      then (let start = hz_start r.db_of in
          if le start (lit 50 0)
          then (some start_not_above_nominal, w)
          else if lt (sub r.prot.of_fast (lit 5 1)) start
          then (some start_above_trip, w)
          else send r (codes "Over_frequency_Watt_Start_set") start w)
      else (none, w)

  -- `if wantsKOf`
  unfoldable pub write_slope : Request → Action (World d)
  unfolding send
  write_slope r w =
      if r.wants.k_of
      then (if ltb r.k_of freq_droop_min_k_of || ltb freq_droop_max_k_of r.k_of
          then (some slope_range, w)
          else send r (codes "Over_Frequency_Watt_Slope_set") (slope_of r.k_of) w)
      else (none, w)

  -- `if wantsRspTms`
  unfoldable pub write_delay_time : Request → Action (World d)
  unfolding send
  write_delay_time r w =
      if r.wants.rsp_tms
      then send r (codes "Over_frequency_Watt_Delay_Time_set") (of_ℤ (pos r.rsp_tms)) w
      else (none, w)

  -- `if wantsEna`
  unfoldable pub write_mode : Request → Action (World d)
  unfolding send
  write_mode r w =
      if r.wants.ena
      then send r (codes "Over_frequency_Watt_set") (of_ℤ (mode_val r.ena r.prot.of_droop_mode)) w
      else (none, w)

  -- The map `expected`.
  unfoldable pub expected_of : Request → List (Str × F)
  expected_of r =
      (if r.wants.ena then (codes "CV", of_ℤ (mode_val r.ena r.prot.of_droop_mode)) ∷ [] else [])
      ++ ((if r.wants.db_of then (codes "DC", hz_start r.db_of) ∷ [] else [])
          ++ (if r.wants.k_of then (codes "DD", slope_of r.k_of) ∷ [] else []))

  unfoldable pub track_expected : ℕ → ℕ → List (Str × F) → World d → World d
  track_expected uid model expected w = if length expected == 0 then w else record w {
    tracker = track w.clock (record { uid = uid; model = model }) expected w.tracker;
  }

  -- From the check of the trip threshold on.
  unfoldable pub write_fields : ℕ → Request → Action (World d)
  unfolding write_start write_slope write_delay_time write_mode expected_of track_expected
  write_fields uid r w =
      if not (r.prot.has (codes "AK"))
      then (some trip_unknown, w)
      else after (write_start r w) (λ w1. after (write_slope r w1) (λ w2.
        after (write_delay_time r w2) (λ w3.
          after (write_mode r w3)
            (λ w4. (none, track_expected uid freq_droop_model_id (expected_of r) w4)))))

  unfoldable pub write_request : ℕ → Request → ℕ → List ℕ → Action (World d)
  write_request uid r addr_offset regs w =
      if touches_read_only droop_writable addr_offset regs 0 22
      then (some read_only, w)
      else if not (r.wants.ena || r.wants.db_of || r.wants.k_of || r.wants.rsp_tms)
      then (if r.wants.req then none else some nothing_written, w)
      else write_fields uid r w

  unfoldable pub freq_droop_apply : Snapshot F → ℕ → ℕ → List ℕ → Action (World d)
  freq_droop_apply snap uid addr_offset regs w =
      if leb uid 1 then (some aggregate_only_read, w) else elim (inverter_of_unit snap uid) [
        | none ↦ (some unmapped_unit, w)
        | some inv ↦
            write_request uid (request_of inv (protection_at fl snap inv.uid) addr_offset regs)
              addr_offset regs w
      ]
