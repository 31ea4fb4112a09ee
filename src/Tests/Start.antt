-- ===== src/Tests/Start.antt =====
-- A start-up, the rounds of the refresh loop, and what the database reports of a row.
use apsystems_sunspec.Base.{◌≡◌, ◌↔◌, ◌⊎◌, inl, inr, refl, true, false, some, none, [], ◌∷◌, codes}
use apsystems_sunspec.Base.Files.{missing}
use apsystems_sunspec.Base.Int.{ℤ, pos}
use apsystems_sunspec.Cmd.{Flags, Environment, Wired, start_up, wire, parse_phase}
use apsystems_sunspec.Cmd.Exits.{main-status}
use apsystems_sunspec.Cmd.Main.{NameplateFile, main}
use apsystems_sunspec.Cmd.Served.{plates_of, handle_read-main}
use apsystems_sunspec.Source.Inverter.{NameplateTable}
use apsystems_sunspec.Cmd.Wiring.{handle_write-start_up}
use apsystems_sunspec.Config.{allows_write, host_of, ip_in_local_network, is_enabled}
use apsystems_sunspec.Config.Load.{load, zero_config, allows_write-load}
use apsystems_sunspec.Source.Builder.{new_builder}
use apsystems_sunspec.Source.Reader.{open_sqlite}
use apsystems_sunspec.Server.Handler.{handle_write, refused, illegal_function}
use apsystems_sunspec.Server.Process.{
  ServerConfig, Sources, run, last_provided, IsPublished, run-IsPublished,
}
use apsystems_sunspec.Tests.Fleet.{server, world, no_table, options, request_at}
use apsystems_sunspec.Base.{lookup, ap, ◌∙◌, arith}
use apsystems_sunspec.Base.Int.{◌*ℤ◌, ◌+ℤ◌}
use apsystems_sunspec.Base.Strconv.{atoi}
use apsystems_sunspec.Base.Strings.{scan_lines, trim_space, split}
use apsystems_sunspec.Base.Word.{i32_of_ℤ, u16_of_ℤ}
use apsystems_sunspec.Source.Builder.{build, with_inverters}
use apsystems_sunspec.Source.Joins.{join_all, join_inverter}
use apsystems_sunspec.Source.Params.{
  load_params_file, parse_params_app, parse_lines, parse_header, parse_inverter_line,
  parse_telemetry, parse_columns, guess_ac_from_tail,
}
use apsystems_sunspec.Source.Snapshot.{Snapshot}
use apsystems_sunspec.Sunspec.Bank.{clamp_i32}
use apsystems_sunspec.Server.Handler.{handle_read, registers}
use apsystems_sunspec.Server.Process.{provided, newest}
use apsystems_sunspec.Server.Lifecycle.{Library}
use apsystems_sunspec.Server.Process.Served.{read_one}
use apsystems_sunspec.Tests.Machine.{fixed_point, tables, flat_net}
use apsystems_sunspec.Tests.Sources.{parsers, builder, read_file, open_file, answers}

-- No configuration file: the loopback may write.
allows_write-load_example : (allows_write flat_net zero_config (codes "::1") ≡ true) ↔ (
    (flat_net.is_loopback (codes "::1") ≡ true)
    ⊎ (ip_in_local_network flat_net (codes "::1") ≡ true))
unfolding load host_of
allows_write-load_example =
    allows_write-load flat_net (λ path. missing) (λ b. none) [] zero_config (codes "::1")
      (codes "::1") refl refl refl

abbrev flags : Flags
flags = record {
  bind = [];
  db_dir = codes "/home";
  params_file = codes "/tmp/parameters_app.conf";
  yuneng_dir = [];
  manufacturer = [];
  model_name = [];
  phase = codes "auto";
  serial_override = [];
  serial_fallback = codes "ecu";
  refresh_interval = pos 0;
  config_path = [];
  nameplate_path = codes "/home/sunspec-nameplate.json";
}

abbrev environment : Environment
environment = record {
  stored = λ path. missing;
  unmarshal = λ b. none;
  opens = λ dir name. true;
  opens_writer = λ dir. true;
  read = λ path. none;
}

abbrev wired : Wired
wired = record {
  builder = new_builder (λ path. none) (codes "/tmp/parameters_app.conf") [];
  config = record {
    url = [];
    refresh_interval = pos 0;
    timeout = pos 0;
    max_clients = 0;
    encoder = options;
    writes = zero_config;
    writer = true;
  };
}

-- A write from the loopback.
handle_write-start_up_example :
    ((handle_write fixed_point tables flat_net server (request_at 3 40267 1 (40 ∷ [])) world).0
      ≡ refused illegal_function)
    ↔ (allows_write flat_net zero_config (codes "::1") ≡ false)
unfolding start_up load wire parse_phase is_enabled open_sqlite
handle_write-start_up_example =
    handle_write-start_up fixed_point tables flat_net environment flags wired server
      (request_at 3 40267 1 (40 ∷ [])) world refl (refl, refl)

abbrev pub config : ServerConfig
config = wired.config

-- A round that reads the file of two inverters, and one that finds none.
abbrev good : Sources ℤ
good = record {
  read = read_file;
  open_file = open_file;
  answers = some answers;
  now = 100;
  later = 101;
}

abbrev bad : Sources ℤ
bad = record good { open_file = λ path. none; now = 200; later = 201 }

run-IsPublished_example :
    ((run fixed_point no_table parsers builder config good (bad ∷ [])).snap
      ≡ last_provided fixed_point no_table parsers builder none (good ∷ bad ∷ []))
    × IsPublished fixed_point no_table parsers builder options
        (run fixed_point no_table parsers builder config good (bad ∷ []))
run-IsPublished_example =
    run-IsPublished fixed_point no_table parsers builder config good (bad ∷ [])

-- A round without a database.
abbrev alone : Sources ℤ
alone = record good { answers = none }

abbrev listener : Library
listener = record { accepts = λ url timeout clients. true; starts = true; stops = true }

abbrev no_nameplates : NameplateFile
no_nameplates = record { stored = λ path. missing; unmarshal = λ b. none }

abbrev plates : NameplateTable
plates = plates_of fixed_point parsers no_nameplates flags

start_up-environment : start_up flat_net environment flags ≡ inr wired
unfolding start_up load wire parse_phase is_enabled open_sqlite
start_up-environment = refl

main-environment :
    (main fixed_point parsers flat_net environment no_nameplates listener flags alone
      (bad ∷ [])).status
    ≡ 0
unfolding start_up load wire parse_phase is_enabled open_sqlite
main-environment =
    (main-status fixed_point parsers flat_net environment no_nameplates listener flags alone
        (bad ∷ [])).1
      (
        zero_config,
        refl,
        ((refl, inl refl), (λ e. refl), (λ e. ground (arith, e))),
        refl,
        refl,
        omega arith,
      )

abbrev built : Snapshot ℤ
built = (build fixed_point parsers read_file open_file none wired.builder).0

build_alone : (build fixed_point parsers read_file open_file none wired.builder).1 ≡ true
unfolding build load_params_file parse_params_app scan_lines parse_lines trim_space split
    parse_header parse_inverter_line parse_telemetry parse_columns atoi ◌*ℤ◌
build_alone = refl

provided-alone : provided fixed_point plates parsers wired.builder alone ≡ some built
unfolding provided
provided-alone = rw (provided, build_alone) refl

provided-bad : provided fixed_point plates parsers wired.builder bad ≡ none
unfolding provided build load_params_file
provided-bad = refl

snapshot_of_run :
    (run fixed_point plates parsers wired.builder config alone (bad ∷ [])).snap ≡ some built
snapshot_of_run =
    (run-IsPublished fixed_point plates parsers wired.builder config alone (bad ∷ [])).0
    ∙ ap
        (λ o.
          newest fixed_point plates parsers wired.builder
            (newest fixed_point plates parsers wired.builder none
              (provided fixed_point plates parsers wired.builder alone))
            o)
        provided-bad
    ∙ ap (newest fixed_point plates parsers wired.builder none) provided-alone

-- The plant produces 490 W.
handle_read-main_example :
    let served =
      (main fixed_point parsers flat_net environment no_nameplates listener flags alone
        (bad ∷ [])).banks in
    (handle_read served (read_one (codes "::1") 40108) ≡ registers (4 ∷ []))
    × (handle_read served (read_one (codes "::1") 40084) ≡ registers (490 ∷ []))
unfolding build load_params_file parse_params_app scan_lines parse_lines trim_space split
    parse_header parse_inverter_line parse_telemetry parse_columns atoi ◌*ℤ◌ with_inverters join_all
    join_inverter lookup guess_ac_from_tail ◌+ℤ◌ i32_of_ℤ u16_of_ℤ clamp_i32
handle_read-main_example =
    handle_read-main fixed_point parsers flat_net environment no_nameplates listener flags alone
      (bad ∷ []) wired built (codes "::1") start_up-environment main-environment snapshot_of_run
      (omega arith)
