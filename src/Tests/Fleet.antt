-- ===== src/Tests/Fleet.antt =====
-- A fleet of two inverters, one four-channel and one two-channel.
use apsystems_sunspec.Base.{
  ℕ, true, false, some, none, List, [], ◌∷◌, codes, str_eq, ◌||◌, if◌then◌else◌,
}
use apsystems_sunspec.Base.Int.{ℤ, pos}
use apsystems_sunspec.Config.{WritesConfig}
use apsystems_sunspec.Source.Inverter.{Inverter, NameplateTable}
use apsystems_sunspec.Source.Protection.{ProtectionParams, no_params}
use apsystems_sunspec.Source.Snapshot.{Snapshot}
use apsystems_sunspec.Sunspec.Options.{Options}
use apsystems_sunspec.Sunspec.Phases.{phase_auto}
use apsystems_sunspec.Server.Handler.{Server, Request}
use apsystems_sunspec.Server.Refresh.{Published, build_banks}
use apsystems_sunspec.Server.Reverter.{Reverter}
use apsystems_sunspec.Server.Tracker.{
  TrackerKey, TrackerEntry, WriteTracker, write_rslt_in_progress,
}
use apsystems_sunspec.Server.World.{World}
use apsystems_sunspec.Tests.Machine.{fixed_point, Tables, tables, flat_net}

abbrev pub roof : Inverter ℤ
roof = record {
  uid = codes "703000001";
  online = true;
  type_code = codes "03";
  frequency_hz = pos 500000;
  temperature_c = pos 31;
  ac_voltage_v = pos 231;
  ac_power_w = pos 640;
  signal_strength = pos 200;
  phase = pos 0;
  model = pos 0x18;
  software_ver = pos 2;
  limited_power_w = pos 500;
  raw_tail = pos 231 ∷ pos 160 ∷ pos 231 ∷ pos 161 ∷ pos 159 ∷ pos 160 ∷ [];
  event_bits = record { bits0 = 0; bits1 = 0; bits2 = 0; bits3 = 0 };
}

abbrev pub shed : Inverter ℤ
shed = record roof {
  uid = codes "704000002";
  type_code = codes "01";
  model = pos 0x20;
  raw_tail = pos 230 ∷ pos 90 ∷ pos 230 ∷ pos 91 ∷ pos 0 ∷ [];
}

-- The inverter `roof` reports its over-frequency trip at 52 Hz, and a droop from 50.2 Hz.
abbrev pub roof_params : ProtectionParams ℤ
roof_params = record (no_params (pos 0)) {
  of_fast = pos 520000;
  of_droop_start = pos 502000;
  of_droop_mode = pos 130000;
  has = λ c. str_eq c (codes "AK") || str_eq c (codes "DC") || str_eq c (codes "CV");
}

abbrev pub fleet : Snapshot ℤ
fleet = record {
  ecuid = codes "216000001";
  firmware = codes "4.1";
  model_name = codes "ECU-R-Pro";
  polling_interval = pos 300;
  system_power_w = pos 821;
  system_max_power_w = pos 2190;
  lifetime_energy_wh = 1500000;
  today_energy_wh = 4200;
  month_energy_wh = 90000;
  year_energy_wh = 800000;
  grid_frequency_hz = pos 500000;
  grid_voltage_v = pos 2310000;
  max_temperature_c = pos 31;
  inverter_count = pos 2;
  inverter_online_count = pos 2;
  inverters = roof ∷ shed ∷ [];
  protection = (codes "703000001", roof_params) ∷ (codes "704000002", roof_params) ∷ [];
}

abbrev pub no_table : NameplateTable
no_table m = none

abbrev pub options : Options
options = record {
  manufacturer = [];
  model_name = [];
  serial_override = [];
  serial_fallback = codes "ecu";
  phase = phase_auto;
  disable_mppt = false;
  write_rslt = none;
}

-- The unit of `roof`, 2, has written a droop start of 50.2 Hz, and the unit 3 one of 50.4 Hz.
abbrev pub landed_entry : TrackerEntry ℤ
landed_entry = record {
  req_counter = 7;
  rslt = write_rslt_in_progress;
  expected = (codes "DC", pos 502000) ∷ [];
  deadline = 1000;
}

abbrev pub lost_entry : TrackerEntry ℤ
lost_entry = record landed_entry { expected = (codes "DC", pos 504000) ∷ [] }

abbrev pub droop_key : ℕ → TrackerKey
droop_key unit = record { uid = unit; model = 711 }

abbrev pub two_writes : WriteTracker ℤ
two_writes = (droop_key 2, landed_entry) ∷ (droop_key 3, lost_entry) ∷ []

abbrev pub published : Published fixed_point no_table
published = record { tracker = two_writes; banks = none; snap = none }

abbrev pub idle : Reverter
idle = record { timers = []; running = []; firing = []; next_id = 0 }

abbrev pub full_tables : Tables
full_tables = record {
  limits = λ i.
      if str_eq i (codes "703000001") || str_eq i (codes "704000002") then some (pos 500) else none;
  switches = λ i. none;
  params = λ i c. none;
}

abbrev pub world : World tables
world = record { db = full_tables; reverter = idle; tracker = []; clock = 100 }

abbrev pub writes_on : WritesConfig
writes_on = record { enabled = none; allow_list = []; allow_local_network = none }

abbrev pub server : Server fixed_point tables flat_net
server = record {
  writes = writes_on;
  has_writer = true;
  banks = some (build_banks fixed_point no_table fleet options []);
  snap = some fleet;
}

-- A write of `args` at `addr` to a unit, from this host.
abbrev pub request_at : ℕ → ℕ → ℕ → List ℕ → Request
request_at unit addr quantity args = record {
  client_addr = codes "::1";
  unit_id = unit;
  addr = addr;
  quantity = quantity;
  args = args;
}
