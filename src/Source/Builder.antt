-- ===== src/Source/Builder.antt =====
-- internal/source/snapshot_builder.go: the snapshot composed of the ECU's files and its databases.
-- os.ReadFile and the engine's answers come in as values; the capture time is left out.
pub mod Fleet
pub mod Joined
pub mod Powers
use apsystems_sunspec.Base.{
  ℕ, zero, suc, ◌+◌, Bool, true, false, not, ◌||◌, Option, none, some, List, [], ◌∷◌, ◌++◌, inl,
  inr, Str, codes, is_empty, length, lookup, insert, get_or, ltb, if◌then◌else◌,
}
use apsystems_sunspec.Base.Int.{ℤ, pos, ◌+ℤ◌, ltb_ℤ}
use apsystems_sunspec.Base.Word.{i32_of_ℤ}
use apsystems_sunspec.Base.Strconv.{atoi}
use apsystems_sunspec.Base.Strings.{trim_space}
use apsystems_sunspec.Floats.{Floats}
use apsystems_sunspec.Source.Joins.{
  Answers, or_nil, Joins, joins_of, metas_by_uid, with_meta, with_signal, with_limit, with_events,
  join_inverter, join_all,
}
use apsystems_sunspec.Source.Inverter.{EventBits, Inverter}
use apsystems_sunspec.Source.Params.{Parsers, ParamsHeader, is_zero, load_params_file}
use apsystems_sunspec.Source.Protection.{ProtectionParams}
use apsystems_sunspec.Source.Protection.Rows.{ProtectionRow, per_inverter_protection}
use apsystems_sunspec.Source.Reader.{
  Scalar, Answer, InverterMeta, IdRow, energy_kwh, per_inverter_limits, signal_strengths,
  latest_event_bits, inverter_list,
}
use apsystems_sunspec.Source.Snapshot.{Snapshot}

-- Builder
pub record Builder : Type 0 where
  pub params_file : Str
  pub yuneng_dir : Str
  pub ecuid : Str
  pub firmware : Str
  pub model : Str

-- os.ReadFile: the contents, or none for an error.
abbrev pub ReadFile : Type 0
ReadFile = Str → Option Str

unfoldable pub read_trim : ReadFile → Str → Str → Str
read_trim read dir name =
    if is_empty dir
    then []
    else elim (read (dir ++ codes "/" ++ name)) [ none ↦ [] | some b ↦ trim_space b ]

unfoldable pub read_int_file : ReadFile → ℕ → Str → Option ℤ
read_int_file read bits path = elim (read path) [ none ↦ none | some b ↦ atoi bits (trim_space b) ]

unfoldable pub new_builder : ReadFile → Str → Str → Builder
unfolding read_trim
new_builder read params_file yuneng_dir = record {
  params_file = params_file;
  yuneng_dir = yuneng_dir;
  ecuid = read_trim read yuneng_dir (codes "ecuid.conf");
  firmware = read_trim read yuneng_dir (codes "version.conf");
  model = read_trim read yuneng_dir (codes "model.conf");
}

module _ {F : Type 0} where
  -- liveSystemPowerW before its conversion to an int32.
  unfoldable pub sum_online_power : ℤ → List (Inverter F) → ℤ
  sum_online_power sum [] = sum
  sum_online_power sum (inv ∷ invs) =
      sum_online_power (if inv.online then sum +ℤ inv.ac_power_w else sum) invs

  unfoldable pub live_system_power_w : List (Inverter F) → ℤ
  live_system_power_w invs = i32_of_ℤ (sum_online_power (pos 0) invs)

-- The loop's variables.
pub record Stats (F : Type 0) : Type 0 where
  pub freq_sum : F
  pub freq_n : ℕ
  pub v_sum : ℤ
  pub v_n : ℕ
  pub temp_max : ℤ
  pub has_temp : Bool
  pub online : ℕ

module _ (fl : Floats) where
  open fl use {F, lit, of_ℤ, add, mul, div, lt, to_u64}

  abbrev pub no_stats : Stats F
  no_stats = record {
    freq_sum = lit 0 0;
    freq_n = 0;
    v_sum = pos 0;
    v_n = 0;
    temp_max = pos 0;
    has_temp = false;
    online = 0;
  }

  abbrev pub count_freq : Inverter F → Stats F → Stats F
  count_freq inv st =
      if lt (lit 0 0) inv.frequency_hz
      then record st { freq_sum = add st.freq_sum inv.frequency_hz; freq_n = suc st.freq_n }
      else st

  abbrev pub count_voltage : Inverter F → Stats F → Stats F
  count_voltage inv st =
      if ltb_ℤ (pos 0) inv.ac_voltage_v
      then record st { v_sum = st.v_sum +ℤ inv.ac_voltage_v; v_n = suc st.v_n }
      else st

  abbrev pub count_temperature : Inverter F → Stats F → Stats F
  count_temperature inv st =
      if not st.has_temp || ltb_ℤ st.temp_max inv.temperature_c
      then record st { temp_max = inv.temperature_c; has_temp = true }
      else st

  -- What the loop does with one inverter, once it is joined.
  unfoldable pub count_inverter : Inverter F → Stats F → Stats F
  count_inverter inv st =
      if inv.online
      then count_temperature inv
          (count_voltage inv (count_freq inv (record st { online = suc st.online })))
      else st

  unfoldable pub count_all : Stats F → List (Inverter F) → Stats F
  count_all st [] = st
  count_all st (inv ∷ invs) = count_all (count_inverter inv st) invs

  -- `uint64(kwh*1000 + 0.5)`, or 0 after an error.
  abbrev pub energy_wh : Scalar F → ℕ
  energy_wh a = elim (energy_kwh fl a) [
    | none ↦ 0
    | some kwh ↦ to_u64 (add (mul kwh (lit 1000 0)) (lit 5 1))
  ]

  abbrev pub polling_interval : ReadFile → ℕ → Builder → ℤ
  polling_interval read bits b =
      let v = read_trim read b.yuneng_dir (codes "polling_interval.conf") in
      if is_empty v then pos 0 else elim (atoi bits v) [ none ↦ pos 0 | some n ↦ n ]

  abbrev pub system_max_power_w : ReadFile → ℕ → ℤ
  system_max_power_w read bits = elim (read_int_file read bits (codes "/tmp/powerALL.conf")) [
    | none ↦ pos 0
    | some v ↦ if ltb_ℤ (pos 0) v then i32_of_ℤ v else pos 0
  ]

  -- The snapshot before the inverters are read.
  unfoldable pub before_params : ReadFile → ℕ → Option (Answers F) → Builder → Snapshot F
  before_params read bits db b = record {
    ecuid = b.ecuid;
    firmware = b.firmware;
    model_name = b.model;
    polling_interval = polling_interval read bits b;
    system_power_w = pos 0;
    system_max_power_w = system_max_power_w read bits;
    lifetime_energy_wh = elim db [ none ↦ 0 | some a ↦ energy_wh a.lifetime ];
    today_energy_wh = elim db [ none ↦ 0 | some a ↦ energy_wh a.today ];
    month_energy_wh = elim db [ none ↦ 0 | some a ↦ energy_wh a.month ];
    year_energy_wh = elim db [ none ↦ 0 | some a ↦ energy_wh a.year ];
    grid_frequency_hz = lit 0 0;
    grid_voltage_v = lit 0 0;
    max_temperature_c = pos 0;
    inverter_count = pos 0;
    inverter_online_count = pos 0;
    inverters = [];
    protection = [];
  }

  abbrev pub protection_of : Option (Answers F) → List (Str × ProtectionParams F)
  protection_of none = []
  protection_of (some a) = or_nil (per_inverter_protection fl a.protection)

  -- The fields that the inverters of the file determine.
  unfoldable pub with_inverters :
      {T : Type 0}
      → Option (Answers F)
      → ParamsHeader T
      → List (Inverter F)
      → Snapshot F
      → Snapshot F
  with_inverters db hdr found s =
      let invs = join_all (joins_of db) found in
      let st = count_all no_stats invs in
      record s {
        protection = protection_of db;
        inverters = invs;
        inverter_count =
            if is_zero hdr.inverter_count then pos (length invs) else hdr.inverter_count;
        inverter_online_count = pos st.online;
        grid_frequency_hz =
            if ltb 0 st.freq_n then div st.freq_sum (of_ℤ (pos st.freq_n)) else lit 0 0;
        grid_voltage_v = if ltb 0 st.v_n then div (of_ℤ st.v_sum) (of_ℤ (pos st.v_n)) else lit 0 0;
        max_temperature_c = if st.has_temp then st.temp_max else pos 0;
        system_power_w = live_system_power_w invs;
      }

  -- Build: the snapshot, and whether the error is nil. `open_file` is os.Open with the reader's bytes,
  -- as load_params_file takes them.
  unfoldable pub build :
      Parsers fl
      → ReadFile
      → (Str → Option (Bool × Str))
      → Option (Answers F)
      → Builder
      → Snapshot F × Bool
  build p read open_file db b =
      let s = before_params read p.int_size db b in
      elim (load_params_file fl p (open_file b.params_file)) [
        | none ↦ (s, false)
        | some (hdr, inl e) ↦ (s, false)
        | some (hdr, inr invs) ↦ (with_inverters db hdr invs s, true)
      ]
