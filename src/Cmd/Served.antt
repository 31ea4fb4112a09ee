-- ===== src/Cmd/Served.antt =====
-- What a client reads from the process of cmd/ecu-sunspec/main.go.
use apsystems_sunspec.Base.{◌≤◌, ◌≡◌, some, List, [], ◌∷◌, Str, length, ◌==◌, if◌then◌else◌, inr}
use apsystems_sunspec.Base.Int.{pos, negsuc, ltb_ℤ}
use apsystems_sunspec.Base.Word.{i32_of_ℤ, u16_of_ℤ}
use apsystems_sunspec.Floats.{Floats}
use apsystems_sunspec.Config.{Net}
use apsystems_sunspec.Source.Builder.Fleet.{online_count, online_power}
use apsystems_sunspec.Source.Inverter.{NameplateTable}
use apsystems_sunspec.Source.Nameplates.{load_nameplate_table, table_of}
use apsystems_sunspec.Source.Params.{Parsers}
use apsystems_sunspec.Source.Snapshot.{Snapshot}
use apsystems_sunspec.Sunspec.Bank.{clamp_i32}
use apsystems_sunspec.Sunspec.Events.{st_sleep, st_mppt, st_standby}
use apsystems_sunspec.Server.Handler.{registers, handle_read}
use apsystems_sunspec.Server.Lifecycle.{Library}
use apsystems_sunspec.Server.Process.{Sources, run}
use apsystems_sunspec.Server.Process.Served.{read_one, handle_read-run}
use apsystems_sunspec.Cmd.{Environment, Flags, Wired, start_up}
use apsystems_sunspec.Cmd.Exits.{main-banks}
use apsystems_sunspec.Cmd.Main.{NameplateFile, main}

module _ (fl : Floats) (p : Parsers fl) where
  open fl use {F}

  -- The nameplates that main loads.
  abbrev pub plates_of : NameplateFile → Flags → NameplateTable
  plates_of file fs =
      table_of (load_nameplate_table p.int_size file.unmarshal file.stored fs.nameplate_path []).1

  -- Of a process whose start-up succeeds, that ends with the status 0, and that publishes at its end a
  -- snapshot of at most 254 inverters, whatever its refreshes have read and however many have failed, a client
  -- of unit 1 reads at 40108 that the plant sleeps exactly when no inverter is online, and else
  -- produces exactly when the powers of those online have a positive sum, as an int32; and at 40084
  -- that sum, cut to what the register's type holds.
  pub handle_read-main :
      (n : Net) (env : Environment) (file : NameplateFile) (lib : Library) (fs : Flags)
      (first : Sources F) (ticks : List (Sources F)) (w : Wired) (snap : Snapshot F) (client : Str)
      → start_up n env fs ≡ inr w
      → (main fl p n env file lib fs first ticks).status ≡ 0
      → (run fl (plates_of file fs) p w.builder w.config first ticks).snap ≡ some snap
      → length snap.inverters ≤ 254
      → let served = (main fl p n env file lib fs first ticks).banks in
        let power = i32_of_ℤ (online_power snap.inverters) in
        (handle_read served (read_one client 40108)
          ≡ registers (
              (if online_count snap.inverters == 0
                then st_sleep
                else if ltb_ℤ (pos 0) power
                then st_mppt
                else st_standby)
              ∷ []))
        × (handle_read served (read_one client 40084)
            ≡ registers (u16_of_ℤ (clamp_i32 power (negsuc 32759) (pos 32760)) ∷ []))
  handle_read-main n env file lib fs first ticks w snap client started ok here few =
      rw (main-banks fl p n env file lib fs first ticks w started ok) (
        handle_read-run fl (plates_of file fs) p w.builder w.config first ticks snap client here
          few)
