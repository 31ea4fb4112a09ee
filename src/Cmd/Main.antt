-- ===== src/Cmd/Main.antt =====
-- main of cmd/ecu-sunspec/main.go, from the flags to the exit: the nameplate table, the start-up, the
-- server's rounds until a signal comes, and its Stop. The log file is left out; the messages are
-- values, without the texts of errors.
use apsystems_sunspec.Base.{
  ℕ, ◌*◌, Option, none, some, List, [], ◌∷◌, ◌++◌, Str, codes, ltb, if◌then◌else◌, ◌⊎◌, inl, inr,
}
use apsystems_sunspec.Base.Files.{Stored}
use apsystems_sunspec.Base.Int.{ℤ, pos}
use apsystems_sunspec.Floats.{Floats}
use apsystems_sunspec.Config.{Net, WritesConfig, is_enabled}
use apsystems_sunspec.Config.Load.{LoadError, load, default_path}
use apsystems_sunspec.Source.Builder.{Builder}
use apsystems_sunspec.Source.Inverter.{NameplateTable}
use apsystems_sunspec.Source.Nameplates.{load_nameplate_table, table_of}
use apsystems_sunspec.Source.Params.{Parsers}
use apsystems_sunspec.Server.Handler.{Banks}
use apsystems_sunspec.Server.Process.{Sources, second, provided}
use apsystems_sunspec.Server.Reverter.{Reverter}
use apsystems_sunspec.Server.Lifecycle.{
  StartError, Library, Service, new_server, start_server, loop_panics, refreshes, stop_server,
}
use apsystems_sunspec.Cmd.{Environment, Flags, Fatal, Wired, start_up}

-- The defaults of the flags.
abbrev pub default_flags : Flags
default_flags = record {
  bind = codes "tcp://0.0.0.0:1502";
  db_dir = codes "/home";
  params_file = codes "/tmp/parameters_app.conf";
  yuneng_dir = codes "/etc/yuneng";
  manufacturer = [];
  model_name = [];
  phase = codes "auto";
  serial_override = [];
  serial_fallback = [];
  refresh_interval = pos (5 * second);
  config_path = default_path;
  nameplate_path = codes "/home/sunspec-nameplate.json";
}

pub data Message : Type 0 where
  nameplates_failed : Message
  nameplates_loaded : ℕ → Message
  writes_enabled : List Str → Message
  writes_disabled initial_refresh_failed shutting_down stop_failed : Message
  listening : Str → Message
  fatal : Fatal → Message
  start_failed : StartError → Message

unfoldable pub nameplate_message : Option ℕ → List Message
nameplate_message none = nameplates_failed ∷ []
nameplate_message (some n) = if ltb 0 n then nameplates_loaded n ∷ [] else []

unfoldable pub writes_message : LoadError ⊎ WritesConfig → List Message
writes_message (inl e) = []
writes_message (inr cfg) =
    (if is_enabled cfg then writes_enabled cfg.allow_list else writes_disabled) ∷ []

-- How the process ends: what it has logged, its exit status, and the banks and timers that its server
-- leaves, none where it has not come to serve.
pub record Ended : Type 0 where
  pub messages : List Message
  pub status : ℕ
  pub banks : Option Banks
  pub reverter : Option Reverter

abbrev died : List Message → Ended
died ms = record { messages = ms; status = 1; banks = none; reverter = none }

-- A panic that no one recovers ends the process with the status 2.
abbrev panicked : List Message → Ended
panicked ms = record { messages = ms; status = 2; banks = none; reverter = none }

-- What main asks of the nameplate file besides its environment.
pub record NameplateFile : Type 0 where
  pub stored : Str → Stored
  pub unmarshal : Str → Option (List (Str × ℤ))

module _ (fl : Floats) (p : Parsers fl) where
  open fl use {F}

  first_message : NameplateTable → Wired → Sources F → List Message
  first_message tbl w first = elim (provided fl tbl p w.builder first) [
    | none ↦ initial_refresh_failed ∷ []
    | some snap ↦ []
  ]

  -- From the rounds of the loop on, with what has been logged so far.
  until_signal :
      (tbl : NameplateTable) → Library → (b : Builder) → List Message → Service fl tbl p b → Ended
  until_signal tbl lib b said s =
      let ended = stop_server fl tbl p b lib s in
      record {
        messages = said ++ shutting_down ∷ (if ended.0 then [] else stop_failed ∷ []);
        status = 0;
        banks = ended.1.published.banks;
        reverter = ended.1.reverter;
      }

  -- From server.New on. The context ends after the rounds `ticks` of the loop. The loop's goroutine is
  -- taken to come to its ticker once Start has returned, and before the context ends; where Start gives
  -- an error, the process dies of that.
  unfoldable pub serve : NameplateTable → Library → Sources F → List (Sources F) → Wired → Ended
  unfolding first_message until_signal
  serve tbl lib first ticks w =
      let started =
        start_server fl tbl p w.builder lib first (new_server fl tbl p w.builder w.config) in
      elim started.0 [
        | some e ↦ died (first_message tbl w first ++ start_failed e ∷ [])
        | none ↦
            if loop_panics fl tbl p w.builder started.1
            then panicked (first_message tbl w first ++ listening started.1.cfg.url ∷ [])
            else until_signal tbl lib w.builder
                (first_message tbl w first ++ listening started.1.cfg.url ∷ [])
                (refreshes fl tbl p w.builder ticks started.1)
      ]

  abbrev pub after_start_up :
      NameplateTable → Library → Sources F → List (Sources F) → Fatal ⊎ Wired → Ended
  after_start_up tbl lib first ticks (inl e) = died (fatal e ∷ [])
  after_start_up tbl lib first ticks (inr w) = serve tbl lib first ticks w

  unfoldable pub main :
      Net → Environment → NameplateFile → Library → Flags → Sources F → List (Sources F) → Ended
  unfolding nameplate_message writes_message
  main n env file lib fs first ticks =
      let plates =
        load_nameplate_table p.int_size file.unmarshal file.stored fs.nameplate_path [] in
      let said =
        nameplate_message plates.0
        ++ writes_message (load n env.stored env.unmarshal fs.config_path) in
      let ended = after_start_up (table_of plates.1) lib first ticks (start_up n env fs) in
      record ended { messages = said ++ ended.messages }
