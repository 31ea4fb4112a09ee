-- ===== src/Server/Commanded/RoundTrip.antt =====
-- A WMaxLimPct that a client writes, and what a client reads after the next refresh.
use mathlib.Core.Path.{subst}
use apsystems_sunspec.Base.{
  ℕ, ◌*◌, ◌≤◌, ◌<◌, ◌≡◌, sym, ap, ◌∙◌, true, some, List, [], ◌∷◌, Str, length,
}
use apsystems_sunspec.Base.Int.{ℤ, pos}
use apsystems_sunspec.Floats.{Floats}
use apsystems_sunspec.Config.{Net, allows_write}
use apsystems_sunspec.Source.Builder.{Builder}
use apsystems_sunspec.Source.Builder.Joined.{IsAnswered, last_of}
use apsystems_sunspec.Source.Database.{Database, DatabaseLaws}
use apsystems_sunspec.Source.Inverter.{Inverter, NameplateTable, nameplate_w, panel_count}
use apsystems_sunspec.Source.Joins.{Answers}
use apsystems_sunspec.Source.Params.{Parsers}
use apsystems_sunspec.Source.Snapshot.{Snapshot}
use apsystems_sunspec.Sunspec.Options.{Options}
use apsystems_sunspec.Server.ControlsWriter.{cap_watts}
use apsystems_sunspec.Server.ControlsWriter.Limits.{watts_of}
use apsystems_sunspec.Server.ControlsWriter.ReadBack.{share, per_inverter_controls_state-cap_watts}
use apsystems_sunspec.Server.Handler.{registers, written, Server, handle_read, handle_write}
use apsystems_sunspec.Server.Handler.OneRegister.{read_unit}
use apsystems_sunspec.Server.Handler.Routing.{HasRefreshed}
use apsystems_sunspec.Server.Process.{ServerConfig, Sources, refresh_once}
use apsystems_sunspec.Server.Refresh.{Published}
use apsystems_sunspec.Server.Refresh.Units.{inverter_at}
use apsystems_sunspec.Server.Tracker.{WriteTracker}
use apsystems_sunspec.Server.World.{World}
use apsystems_sunspec.Server.Commanded.{
  write_pct, limit_of-commanded, handle_write-pct, built, IsBuilt, handle_read-pct,
  limited_power-last_of,
}

module _ (fl : Floats) (d : Database fl.F) (laws : DatabaseLaws d) (n : Net) (tbl : NameplateTable)
    (p : Parsers fl) (b : Builder) where
  open fl use {F}
  open laws use {limit_of}

  -- After a refresh with at most 254 inverters, on a server with a writer, an allowed client
  -- writes a WMaxLimPct of at most 100 to the unit of an inverter that has a row, and the write
  -- succeeds. When a later refresh succeeds with its telemetry answered without an error, reads
  -- for the inverter the limit that the write has left, and finds it at that unit among at most
  -- 254, with a known nameplate of no more than 500 W for each of its panels, a client reads there
  -- the percentage of the nameplate to which the limit comes: never less than the percentage
  -- written, and the same, from 4 on, where the nameplate is 500 W for each panel.
  pub handle_read-handle_write :
      (s : Server fl d n) (snap : Snapshot F) (opt : Options) (wt : WriteTracker F) (w w' : World d)
      (client reader : Str) (unit pct plate : ℕ) (inv inv' : Inverter F) (old : ℤ)
      (cfg : ServerConfig) (src : Sources F) (before : Published fl tbl) (a : Answers F)
      (signals limits : List (Str × ℤ)) (events : List (Str × Str))
      → HasRefreshed fl d n tbl s snap opt wt
      → length snap.inverters ≤ 254
      → allows_write n s.writes client ≡ true
      → s.has_writer ≡ true
      → inverter_at snap unit ≡ some inv
      → limit_of w.db inv.uid ≡ some old
      → pct ≤ 100
      → handle_write fl d n s (write_pct client unit pct) w ≡ (written, w')
      → src.answers ≡ some a
      → IsAnswered fl p signals limits events a
      → last_of inv.uid limits ≡ limit_of w'.db inv.uid
      → IsBuilt fl tbl p b src
      → length (built fl tbl p b src).inverters ≤ 254
      → inverter_at (built fl tbl p b src) unit ≡ some inv'
      → inv'.uid ≡ inv.uid
      → 0 < plate
      → nameplate_w tbl inv' ≡ pos plate
      → plate ≤ 500 * panel_count inv'
      → let shown = share plate (watts_of pct) (panel_count inv') in
        (handle_read (refresh_once fl tbl p b cfg src before).banks (read_unit reader unit 40267)
          ≡ registers (shown ∷ []))
        × (pct ≤ shown)
        × (4 ≤ pct → plate ≡ 500 * panel_count inv' → shown ≡ pct)
  handle_read-handle_write s snap opt wt w w' client reader unit pct plate inv inv' old cfg src
        before a signals limits events fresh few allowed able here row small ok asked answers
        reported built_ok few' here' same known plate_of wide =
      let wrote =
        handle_write-pct fl d n tbl s snap opt wt client unit pct w w' inv fresh few allowed able
          here ok in
      let stored = limit_of-commanded d laws snap unit pct w w' inv old here row wrote in
      let limit =
        limited_power-last_of fl tbl p b src a signals limits events unit inv' (cap_watts pct) asked
          answers built_ok here' (ap (λ u. last_of u limits) same ∙ reported ∙ stored) in
      let (is_share, least, exact) =
        per_inverter_controls_state-cap_watts tbl inv' pct plate small known wide limit plate_of in
      (
        handle_read-pct fl tbl p b cfg src before reader unit inv' built_ok few' here'
            ∙ ap (λ r. registers (r ∷ [])) is_share,
        subst (λ m. pct ≤ m) is_share least,
        λ enough full. sym is_share ∙ exact enough full,
      )
