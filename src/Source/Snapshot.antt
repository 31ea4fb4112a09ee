-- ===== src/Source/Snapshot.antt =====
-- internal/source/snapshot.go: the unified view of the ECU, and its fleet-wide sums.
use Prim.Native.Nat.{bit_or}
use apsystems_sunspec.Base.{ℕ, ◌+◌, ◌&&◌, List, [], ◌∷◌, Str, codes, if◌then◌else◌}
use apsystems_sunspec.Base.Int.{ℤ, pos, ◌+ℤ◌, ◌*ℤ◌, ltb_ℤ}
use apsystems_sunspec.Floats.{Floats}
use apsystems_sunspec.Source.Inverter.{
  EventBits, Inverter, NameplateTable, panel_count, nameplate_w,
}
use apsystems_sunspec.Source.Protection.{ProtectionParams}

-- `protection` lists the entries of the Go map in the order in which a loop over it meets them.
pub record Snapshot (F : Type 0) : Type 0 where
  pub ecuid : Str
  pub firmware : Str
  pub model_name : Str
  pub polling_interval : ℤ
  pub system_power_w : ℤ
  pub system_max_power_w : ℤ
  pub lifetime_energy_wh : ℕ
  pub today_energy_wh : ℕ
  pub month_energy_wh : ℕ
  pub year_energy_wh : ℕ
  pub grid_frequency_hz : F
  pub grid_voltage_v : F
  pub max_temperature_c : ℤ
  pub inverter_count : ℤ
  pub inverter_online_count : ℤ
  pub inverters : List (Inverter F)
  pub protection : List (Str × ProtectionParams F)

unfoldable pub or_bits : EventBits → EventBits → EventBits
or_bits a b = record {
  bits0 = bit_or a.bits0 b.bits0;
  bits1 = bit_or a.bits1 b.bits1;
  bits2 = bit_or a.bits2 b.bits2;
  bits3 = bit_or a.bits3 b.bits3;
}

abbrev pub no_bits : EventBits
no_bits = record { bits0 = 0; bits1 = 0; bits2 = 0; bits3 = 0 }

or_events : {F : Type 0} → EventBits → List (Inverter F) → EventBits
or_events out [] = out
or_events out (inv ∷ invs) = or_events (or_bits out inv.event_bits) invs

unfoldable pub aggregate_event_bits : {F : Type 0} → Snapshot F → EventBits
unfolding or_events or_bits
aggregate_event_bits s = or_events no_bits s.inverters

module _ {F : Type 0} (tbl : NameplateTable) where
  unfoldable pub sum_nameplate : ℤ → List (Inverter F) → ℤ
  sum_nameplate sum [] = sum
  sum_nameplate sum (inv ∷ invs) = sum_nameplate (sum +ℤ nameplate_w tbl inv) invs

  unfoldable pub total_nameplate_w : Snapshot F → ℤ
  unfolding sum_nameplate
  total_nameplate_w s = sum_nameplate (pos 0) s.inverters

  -- What one inverter adds to TotalLimitedW: the smaller of its panel caps and its rating.
  unfoldable pub limited_w : Inverter F → ℤ
  limited_w inv =
      let dc = inv.limited_power_w *ℤ pos (panel_count inv) in
      let ac = nameplate_w tbl inv in if ltb_ℤ (pos 0) ac && ltb_ℤ ac dc then ac else dc

  unfoldable pub sum_limited : ℤ → List (Inverter F) → ℤ
  sum_limited sum [] = sum
  sum_limited sum (inv ∷ invs) = sum_limited (sum +ℤ limited_w inv) invs

  unfoldable pub total_limited_w : Snapshot F → ℤ
  unfolding sum_limited
  total_limited_w s = sum_limited (pos 0) s.inverters

unfoldable pub sum_panels : {F : Type 0} → ℕ → List (Inverter F) → ℕ
sum_panels n [] = n
sum_panels n (inv ∷ invs) = sum_panels (if inv.online then n + panel_count inv else n) invs

unfoldable pub total_panel_count : {F : Type 0} → Snapshot F → ℕ
unfolding sum_panels
total_panel_count s = sum_panels 0 s.inverters

module _ (fl : Floats) where
  open fl use {F, lit, lt, add, div, to_int}

  -- The loop of NominalVRefV.
  unfoldable pub first_v_ref : List (Str × ProtectionParams F) → ℤ
  first_v_ref [] = pos 0
  first_v_ref ((uid, p) ∷ ps) =
      if p.has (codes "AB") && lt (lit 0 0) p.avg_ov
      then to_int (add (div p.avg_ov (lit 110 2)) (lit 5 1))
      else first_v_ref ps

  unfoldable pub nominal_v_ref_v : Snapshot F → ℤ
  unfolding first_v_ref
  nominal_v_ref_v s = first_v_ref s.protection
