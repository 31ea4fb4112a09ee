-- ===== src/Sunspec/Phases.antt =====
-- Phase modes, phase detection and derived currents of internal/sunspec/encoder.go.
use apsystems_sunspec.Base.{
  ℕ, zero, suc, ◌+◌, Bool, true, false, List, [], ◌∷◌, ltb, ◌==◌, if◌then◌else◌,
}
use apsystems_sunspec.Base.Int.{ℤ, pos, negsuc, ◌+ℤ◌}
use apsystems_sunspec.Floats.{Floats}
use apsystems_sunspec.Source.Inverter.{Inverter}
use apsystems_sunspec.Source.Snapshot.{Snapshot}
use apsystems_sunspec.Sunspec.Bank.{not_impl_u16}

pub data PhaseMode : Type 0 where
  phase_auto phase_single phase_split phase_three : PhaseMode

unfoldable pub model_id : PhaseMode → ℕ
model_id phase_split = 102
model_id phase_three = 103
model_id _ = 101

unfoldable pub phases_used : PhaseMode → ℕ
phases_used phase_split = 2
phases_used phase_three = 3
phases_used _ = 1

unfoldable pub phase_value_u16 : ℕ → ℕ → ℕ → ℕ
phase_value_u16 v idx used = if ltb idx used then v else not_impl_u16

-- The phase 1, 2 or 3 of an inverter; any other number is folded onto 1.
unfoldable pub folded_phase : ℤ → ℕ
folded_phase (pos zero) = 1
folded_phase (pos (suc zero)) = 1
folded_phase (pos (suc (suc zero))) = 2
folded_phase (pos (suc (suc (suc zero)))) = 3
folded_phase (pos (suc (suc (suc (suc n))))) = 1
folded_phase (negsuc n) = 1

-- The array `seen` at 1, 2 and 3, over the online inverters.
pub record Seen : Type 0 where
  pub seen1 : Bool
  pub seen2 : Bool
  pub seen3 : Bool

see : ℕ → Seen → Seen
see ph s =
    if ph == 1
    then record s { seen1 = true }
    else if ph == 2
    then record s { seen2 = true }
    else record s { seen3 = true }

see_phases : {F : Type 0} → Seen → List (Inverter F) → Seen
unfolding see folded_phase
see_phases s [] = s
see_phases s (inv ∷ invs) =
    see_phases (if inv.online then see (folded_phase inv.phase) s else s) invs

count_seen : Seen → ℕ
count_seen s = (if s.seen1 then 1 else 0) + (if s.seen2 then 1 else 0) + (if s.seen3 then 1 else 0)

mode_of_count : ℕ → PhaseMode
mode_of_count n = if ltb n 2 then phase_single else if n == 2 then phase_split else phase_three

unfoldable pub detect_phase : {F : Type 0} → Snapshot F → PhaseMode
unfolding see_phases count_seen mode_of_count
detect_phase s =
    mode_of_count
      (count_seen (see_phases (record { seen1 = false; seen2 = false; seen3 = false }) s.inverters))

-- The watts of each phase.
pub record PhaseWatts : Type 0 where
  pub watts_a : ℤ
  pub watts_b : ℤ
  pub watts_c : ℤ

add_watts : ℕ → ℤ → PhaseWatts → PhaseWatts
add_watts ph w p =
    if ph == 1
    then record p { watts_a = p.watts_a +ℤ w }
    else if ph == 2
    then record p { watts_b = p.watts_b +ℤ w }
    else record p { watts_c = p.watts_c +ℤ w }

unfoldable pub sum_watts : {F : Type 0} → PhaseWatts → List (Inverter F) → PhaseWatts
unfolding add_watts
sum_watts p [] = p
sum_watts p (inv ∷ invs) =
    sum_watts (if inv.online then add_watts (folded_phase inv.phase) inv.ac_power_w p else p) invs

-- Tenths of an ampere: the total, and one for each phase.
pub record PhaseCurrents : Type 0 where
  pub total : ℕ
  pub phase_a : ℕ
  pub phase_b : ℕ
  pub phase_c : ℕ

module _ (fl : Floats) where
  open fl use {F, lit, le, add, mul, div, of_ℤ, to_u16}

  amps10 : F → ℤ → ℕ
  amps10 v w = to_u16 (add (mul (div (of_ℤ w) v) (lit 10 0)) (lit 5 1))

  currents_at : F → PhaseWatts → PhaseCurrents
  unfolding amps10
  currents_at v p = record {
    total = amps10 v (pos 0 +ℤ p.watts_a +ℤ p.watts_b +ℤ p.watts_c);
    phase_a = amps10 v p.watts_a;
    phase_b = amps10 v p.watts_b;
    phase_c = amps10 v p.watts_c;
  }

  unfoldable pub derive_phase_currents : Snapshot F → PhaseCurrents
  unfolding currents_at sum_watts
  derive_phase_currents s =
      if le s.grid_voltage_v (lit 0 0)
      then record { total = 0; phase_a = 0; phase_b = 0; phase_c = 0 }
      else currents_at s.grid_voltage_v
          (sum_watts (record { watts_a = pos 0; watts_b = pos 0; watts_c = pos 0 }) s.inverters)
