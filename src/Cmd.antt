-- ===== src/Cmd.antt =====
-- cmd/ecu-sunspec/main.go: the flags that shape the server, and how a start-up comes to a server or
-- ends. The log file, the signals and the listener are left out.
pub mod Exits
pub mod Main
pub mod Served
pub mod Wiring
use apsystems_sunspec.Base.{
  ◌≡◌, refl, Bool, true, false, not, ◌||◌, ◌&&◌, Option, none, some, List, [], ◌∷◌, ◌⊎◌, inl, inr,
  Str, codes, str_eq, if◌then◌else◌, ℕ, arith, Sum-cases, Bool-cases, Option-cases,
}
use apsystems_sunspec.Floats.{Floats}
use apsystems_sunspec.Config.{Net, WritesConfig, is_enabled}
use apsystems_sunspec.Base.Files.{Stored}
use apsystems_sunspec.Base.Int.{ℤ, pos}
use apsystems_sunspec.Config.Load.{LoadError, load}
use apsystems_sunspec.Source.Builder.{Builder, ReadFile, new_builder}
use apsystems_sunspec.Source.Reader.{open_sqlite}
use apsystems_sunspec.Sunspec.Options.{Options}
use apsystems_sunspec.Sunspec.Phases.{PhaseMode, phase_auto, phase_single, phase_split, phase_three}
use apsystems_sunspec.Server.Process.{ServerConfig}

-- `none` is the error of an unknown mode.
unfoldable pub parse_phase : Str → Option PhaseMode
parse_phase s =
    if str_eq s (codes "auto") || str_eq s (codes "")
    then some phase_auto
    else if str_eq s (codes "single") || str_eq s (codes "1") || str_eq s (codes "101")
    then some phase_single
    else if str_eq s (codes "split") || str_eq s (codes "2") || str_eq s (codes "102")
    then some phase_split
    else if str_eq s (codes "three") || str_eq s (codes "3") || str_eq s (codes "103")
    then some phase_three
    else none

-- The flags that reach the server, with the refresh interval in nanoseconds, a signed Duration.
pub record Flags : Type 0 where
  pub bind : Str
  pub db_dir : Str
  pub params_file : Str
  pub yuneng_dir : Str
  pub manufacturer : Str
  pub model_name : Str
  pub phase : Str
  pub serial_override : Str
  pub serial_fallback : Str
  pub refresh_interval : ℤ
  pub config_path : Str
  pub nameplate_path : Str

pub data Fatal : Type 0 where
  load_config : LoadError → Fatal
  sqlite_closed writer_closed unknown_phase : Fatal

-- What main hands to server.New.
pub record Wired : Type 0 where
  pub builder : Builder
  pub config : ServerConfig

-- The parts of the environment that main asks: the configuration file and its parser, whether a file of
-- the database directory opens for reading, and the database for writing, and the files of the ECU.
pub record Environment : Type 0 where
  pub stored : Str → Stored
  pub unmarshal : Str → Option WritesConfig
  pub opens : Str → Str → Bool
  pub opens_writer : Str → Bool
  pub read : ReadFile

abbrev encoder_of : Flags → PhaseMode → Options
encoder_of fs mode = record {
  manufacturer = fs.manufacturer;
  model_name = fs.model_name;
  serial_override = fs.serial_override;
  serial_fallback = fs.serial_fallback;
  phase = mode;
  disable_mppt = false;
  write_rslt = none;
}

-- New's arguments, once everything is open.
abbrev wired_with : Environment → Flags → WritesConfig → PhaseMode → Wired
wired_with env fs cfg mode = record {
  builder = new_builder env.read fs.params_file fs.yuneng_dir;
  config = record {
    url = fs.bind;
    refresh_interval = fs.refresh_interval;
    timeout = pos 0;
    max_clients = 0;
    encoder = encoder_of fs mode;
    writes = cfg;
    writer = is_enabled cfg;
  };
}

-- From the configuration on.
unfoldable pub wire : Environment → Flags → WritesConfig → Fatal ⊎ Wired
wire env fs cfg = elim (open_sqlite (env.opens fs.db_dir)) [
  | none ↦ inl sqlite_closed
  | some names ↦
      if is_enabled cfg && not (env.opens_writer fs.db_dir)
      then inl writer_closed
      else elim (parse_phase fs.phase) [
        | none ↦ inl unknown_phase
        | some mode ↦ inr (wired_with env fs cfg mode)
      ]
]

unfoldable pub start_up : Net → Environment → Flags → Fatal ⊎ Wired
start_up n env fs = elim (load n env.stored env.unmarshal fs.config_path) [
  | inl e ↦ inl (load_config e)
  | inr cfg ↦ wire env fs cfg
]
