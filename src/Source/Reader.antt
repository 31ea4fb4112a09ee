-- ===== src/Source/Reader.antt =====
-- internal/source/sqlite.go: what the adapter reads from the ECU's two databases. The engine's answers
-- come in as values: `Scalar` for a query of one number, `Answer` for a query of rows. Opening and
-- closing the handles is left out.
pub mod Bits
use Prim.Native.Nat.{bit_or}
use apsystems_sunspec.Base.{
  ℕ, zero, suc, ◌+◌, ◌/◌, ◌%◌, ◌^◌, Bool, true, false, Option, none, some, List, [], ◌∷◌, Str,
  codes, insert, leb, ◌==◌, if◌then◌else◌,
}
use apsystems_sunspec.Base.Int.{ℤ, pos}
use apsystems_sunspec.Base.Word.{i32_of_ℤ}
use apsystems_sunspec.Floats.{Floats}
use apsystems_sunspec.Source.Inverter.{EventBits}
use apsystems_sunspec.Source.Snapshot.{no_bits}

-- The answer to QueryRowContext and Scan.
pub data Scalar (A : Type 0) : Type 0 where
  no_rows : Scalar A
  row_failed : Scalar A
  value : A → Scalar A

-- The answer to QueryContext: an error, or the rows, where `none` is a row that Scan fails on, with
-- whether rows.Err() is nil at their end.
pub data Answer (A : Type 0) : Type 0 where
  query_failed : Answer A
  no_such_table : Answer A
  rows : List (Option A) → Bool → Answer A

pub record InverterMeta : Type 0 where
  pub uid : Str
  pub model : ℤ
  pub software_ver : ℤ
  pub phase : ℤ
  pub bound : Bool

-- The columns of the table id.
pub record IdRow : Type 0 where
  pub uid : Str
  pub model : ℤ
  pub software_version : ℤ
  pub phase : ℤ
  pub bind_zigbee_flag : ℕ

-- openFirstExisting: the first of the names that opens. `opens` is whether openRO of a file of the
-- directory succeeds.
unfoldable pub open_first_existing : (Str → Bool) → List Str → Option Str
open_first_existing opens [] = none
open_first_existing opens (n ∷ ns) = if opens n then some n else open_first_existing opens ns

-- OpenSQLite: the names of the two files, or none for an error.
unfoldable pub open_sqlite : (Str → Bool) → Option (Str × Str)
unfolding open_first_existing
open_sqlite opens =
    if opens (codes "database.db")
    then elim (open_first_existing opens
        (codes "historical_data.db" ∷ codes "historical.db" ∷ [])) [
          | none ↦ none
          | some hist ↦ some (codes "database.db", hist)
        ]
    else none

-- LifetimeEnergyKWh, TodayEnergyKWh, MonthEnergyKWh and YearEnergyKWh, which differ in the query.
unfoldable pub energy_kwh : (fl : Floats) → Scalar fl.F → Option fl.F
energy_kwh fl no_rows = some (fl.lit 0 0)
energy_kwh fl row_failed = none
energy_kwh fl (value v) = some v

unfoldable pub latest_system_power_w : (fl : Floats) → Scalar fl.F → Option ℤ
latest_system_power_w fl no_rows = some (pos 0)
latest_system_power_w fl row_failed = none
latest_system_power_w fl (value v) = some (i32_of_ℤ (fl.to_int (fl.add v (fl.lit 5 1))))

-- `out[uid] = v` for each row, left at the first that Scan fails on.
unfoldable pub fill_map :
    {A : Type 0} → List (Str × A) → List (Option (Str × A)) → Option (List (Str × A))
fill_map out [] = some out
fill_map out (none ∷ rs) = none
fill_map out (some (uid, v) ∷ rs) = fill_map (insert uid v out) rs

unfoldable pub map_of_rows : {A : Type 0} → Answer (Str × A) → Option (List (Str × A))
unfolding fill_map
map_of_rows query_failed = none
map_of_rows no_such_table = none
map_of_rows (rows rs ok) = let out = fill_map [] rs in if ok then out else none

-- PerInverterLimits
unfoldable pub per_inverter_limits : Answer (Str × ℤ) → Option (List (Str × ℤ))
unfolding map_of_rows
per_inverter_limits a = map_of_rows a

-- SignalStrengths
unfoldable pub signal_strengths : Answer (Str × ℤ) → Option (List (Str × ℤ))
unfolding map_of_rows
signal_strengths a = map_of_rows a

abbrev meta_of : IdRow → InverterMeta
meta_of r = record {
  uid = r.uid;
  model = r.model;
  software_ver = r.software_version;
  phase = r.phase;
  bound = r.bind_zigbee_flag == 1;
}

-- The loop of InverterList, without the rows that are there already.
unfoldable pub list_metas : List (Option IdRow) → Option (List InverterMeta)
list_metas [] = some []
list_metas (none ∷ rs) = none
list_metas (some r ∷ rs) = elim (list_metas rs) [ none ↦ none | some out ↦ some (meta_of r ∷ out) ]

unfoldable pub inverter_list : Answer IdRow → Option (List InverterMeta)
unfolding list_metas
inverter_list query_failed = none
inverter_list no_such_table = none
inverter_list (rows rs ok) = let out = list_metas rs in if ok then out else none

-- out[slot] |= 1 << bit
unfoldable pub set_bit : EventBits → ℕ → ℕ → EventBits
set_bit out slot bit =
    if slot == 0
    then record out { bits0 = bit_or out.bits0 (2 ^ bit) }
    else if slot == 1
    then record out { bits1 = bit_or out.bits1 (2 ^ bit) }
    else if slot == 2
    then record out { bits2 = bit_or out.bits2 (2 ^ bit) }
    else record out { bits3 = bit_or out.bits3 (2 ^ bit) }

-- The loop of parseEventBits from the byte `i` on. A rune '1' is one byte, and no other rune has
-- that byte in it.
unfoldable pub parse_bits_from : ℕ → EventBits → Str → EventBits
unfolding set_bit
parse_bits_from i out [] = out
parse_bits_from i out (c ∷ eve) =
    let rest =
      parse_bits_from (i + 1) (if c == b'1' then set_bit out (i / 32) (i % 32) else out) eve in
    if leb 128 i then out else rest

unfoldable pub parse_event_bits : Str → EventBits
unfolding parse_bits_from
parse_event_bits eve = parse_bits_from 0 no_bits eve

-- The parsed rows of LatestEventBits.
abbrev pub parse_row : Option (Str × Str) → Option (Str × EventBits)
parse_row none = none
parse_row (some (uid, eve)) = some (uid, parse_event_bits eve)

abbrev pub parse_rows : List (Option (Str × Str)) → List (Option (Str × EventBits))
parse_rows [] = []
parse_rows (r ∷ rs) = parse_row r ∷ parse_rows rs

unfoldable pub latest_event_bits : Answer (Str × Str) → Option (List (Str × EventBits))
latest_event_bits query_failed = none
latest_event_bits no_such_table = none
latest_event_bits (rows rs ok) = map_of_rows (rows (parse_rows rs) ok)
