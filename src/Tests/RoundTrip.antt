-- ===== src/Tests/RoundTrip.antt =====
-- A cap of 40 % for the second inverter of the fleet, and the refresh that reads it back.
use apsystems_sunspec.Base.{
  ℕ, ◌*◌, ◌≤◌, ◌≡◌, refl, true, some, List, [], ◌∷◌, Str, codes, length, arith, lookup, insert,
}
use apsystems_sunspec.Base.Int.{ℤ, pos, ◌+ℤ◌, ◌-ℤ◌, ◌*ℤ◌, quot}
use apsystems_sunspec.Base.Strconv.{atoi}
use apsystems_sunspec.Base.Strings.{scan_lines, trim_space, split}
use apsystems_sunspec.Config.{allows_write, host_of, is_enabled}
use apsystems_sunspec.Source.Builder.{build, with_inverters}
use apsystems_sunspec.Source.Builder.Joined.{answered}
use apsystems_sunspec.Source.Inverter.{Inverter, panel_count, nameplate_w}
use apsystems_sunspec.Source.Joins.{Answers, join_all, join_inverter, metas_by_uid}
use apsystems_sunspec.Source.Params.{
  load_params_file, parse_params_app, parse_lines, parse_header, parse_inverter_line,
  parse_telemetry, parse_columns, guess_ac_from_tail,
}
use apsystems_sunspec.Source.Reader.{
  latest_event_bits, map_of_rows, per_inverter_limits, signal_strengths, inverter_list,
}
use apsystems_sunspec.Source.Writer.{for_each, set_max_power}
use apsystems_sunspec.Server.Commanded.{write_pct, built, IsBuilt}
use apsystems_sunspec.Server.Commanded.RoundTrip.{handle_read-handle_write}
use apsystems_sunspec.Server.ControlsWriter.{controls_apply, target_uids, cap_watts}
use apsystems_sunspec.Server.Handler.{handle_read, handle_write, registers, written}
use apsystems_sunspec.Server.Handler.OneRegister.{read_unit}
use apsystems_sunspec.Server.Handler.Routing.{handle_write-routed}
use apsystems_sunspec.Server.Process.{Sources, refresh_once}
use apsystems_sunspec.Server.Refresh.Units.{inverter_at}
use apsystems_sunspec.Source.Snapshot.{Snapshot}
use apsystems_sunspec.Server.World.{World, write_touches, read_field, inverter_of_unit}
use apsystems_sunspec.Tests.Fleet.{shed, fleet, no_table, options, published, server, world}
use apsystems_sunspec.Tests.Machine.{fixed_point, tables, tables-DatabaseLaws, flat_net}
use apsystems_sunspec.Tests.Sources.{parsers, builder, read_file, answers}
use apsystems_sunspec.Tests.Start.{config}

-- The fleet as its file has it later, with the first inverter offline.
abbrev later_text : Str
later_text = codes "01,2,20260501093000\n703000001,0,03\n704000002,1,01,50,131,250,230,240,230\n"

abbrev reported : List (Str × ℤ)
reported = (codes "703000001", pos 500) ∷ (codes "704000002", pos 200) ∷ []

abbrev later_answers : Answers ℤ
later_answers = record answers { limits = answered reported; events = answered [] }

abbrev later_round : Sources ℤ
later_round = record {
  read = read_file;
  open_file = λ path. some (true, later_text);
  answers = some later_answers;
  now = 100;
  later = 101;
}

abbrev capped_world : World tables
capped_world = (controls_apply tables fleet 3 3 (40 ∷ []) world).1

cap_succeeds :
    handle_write fixed_point tables flat_net server (write_pct (codes "::1") 3 40) world
    ≡ (written, capped_world)
unfolding allows_write is_enabled host_of controls_apply target_uids inverter_of_unit write_touches
    read_field for_each set_max_power cap_watts quot ◌*ℤ◌
cap_succeeds =
    handle_write-routed fixed_point tables flat_net no_table server fleet options []
      (write_pct (codes "::1") 3 40) world (refl, refl) (omega arith) refl refl (omega arith)

-- The second inverter then.
abbrev seen : Inverter ℤ
seen = record shed {
  ac_voltage_v = pos 230;
  ac_power_w = pos 490;
  signal_strength = pos 0;
  model = pos 0;
  software_ver = pos 0;
  limited_power_w = pos 200;
  raw_tail = pos 131 ∷ pos 250 ∷ pos 230 ∷ pos 240 ∷ pos 230 ∷ [];
}

abbrev now_built : Snapshot ℤ
now_built = built fixed_point no_table parsers builder later_round

IsBuilt-later : IsBuilt fixed_point no_table parsers builder later_round
unfolding build load_params_file parse_params_app scan_lines parse_lines trim_space split
    parse_header parse_inverter_line parse_telemetry parse_columns atoi ◌*ℤ◌ guess_ac_from_tail
    with_inverters join_all join_inverter lookup
IsBuilt-later = refl

fleet_now : (length now_built.inverters ≡ 2) × (inverter_at now_built 3 ≡ some seen)
unfolding build load_params_file parse_params_app scan_lines parse_lines trim_space split
    parse_header parse_inverter_line parse_telemetry parse_columns atoi ◌*ℤ◌ guess_ac_from_tail
    with_inverters join_all join_inverter lookup latest_event_bits map_of_rows per_inverter_limits
    insert signal_strengths metas_by_uid inverter_list ◌-ℤ◌ ◌+ℤ◌
fleet_now = (refl, refl)

-- 200 W for each of two panels, of 730 W: 54 %.
handle_read-handle_write_example :
    (handle_read
        (refresh_once fixed_point no_table parsers builder config later_round published).banks
        (read_unit (codes "::1") 3 40267)
      ≡ registers (54 ∷ []))
    × (◌≤◌ 40 54)
    × (4 ≤ 40 → ◌≡◌ {A = ℕ} 730 (500 * panel_count seen) → ◌≡◌ {A = ℕ} 54 40)
unfolding allows_write is_enabled host_of controls_apply target_uids inverter_of_unit write_touches
    read_field for_each set_max_power cap_watts quot ◌*ℤ◌ nameplate_w panel_count
handle_read-handle_write_example =
    handle_read-handle_write fixed_point tables tables-DatabaseLaws flat_net no_table parsers
      builder server fleet options [] world capped_world (codes "::1") (codes "::1") 3 40 730 shed
      seen (pos 500) config later_round published later_answers [] reported [] (refl, refl)
      (omega arith) refl refl refl refl (omega arith) cap_succeeds refl (refl, refl, refl) refl
      IsBuilt-later (omega (arith, fleet_now.0)) fleet_now.1 refl (omega arith) refl (omega arith)
