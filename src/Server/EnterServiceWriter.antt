-- ===== src/Server/EnterServiceWriter.antt =====
-- internal/server/enter_service_writer.go: writes to Model 703.
pub mod Delay
use apsystems_sunspec.Base.{
  ℕ, Bool, not, ◌&&◌, ◌||◌, Option, some, none, List, [], ◌∷◌, Str, codes, length, get_or, leb, ltb,
  ◌==◌, if◌then◌else◌,
}
use apsystems_sunspec.Base.Int.{pos}
use apsystems_sunspec.Floats.{Floats}
use apsystems_sunspec.Source.Database.{Database}
use apsystems_sunspec.Source.Inverter.{Inverter}
use apsystems_sunspec.Source.Snapshot.{Snapshot}
use apsystems_sunspec.Source.Writer.{
  Error, aggregate_only_read, unmapped_unit, wrong_window, delay_range, Action,
  set_protection_param,
}
use apsystems_sunspec.Server.World.{World, on_db, u32_of, inverter_of_unit}

abbrev pub enter_service_min_reconnect_s : ℕ
enter_service_min_reconnect_s = 10

abbrev pub enter_service_max_reconnect_s : ℕ
enter_service_max_reconnect_s = 610

module _ (fl : Floats) (d : Database fl.F) where
  open fl use {F, of_ℤ}

  -- From the check of the register window on, for the inverter `inv_uid`.
  write_delay : Str → ℕ → List ℕ → Action (World d)
  write_delay inv_uid addr_offset regs w =
      if not (addr_offset == 7) || not (length regs == 2)
      then (some wrong_window, w)
      else (let seconds = u32_of (get_or regs 0 0) (get_or regs 1 0) in
          if ltb seconds enter_service_min_reconnect_s || ltb enter_service_max_reconnect_s seconds
          then (some delay_range, w)
          else on_db
              (set_protection_param d inv_uid (codes "grid_recovery_time") (of_ℤ (pos seconds))) w)

  unfoldable pub enter_service_apply : Snapshot F → ℕ → ℕ → List ℕ → Action (World d)
  unfolding write_delay
  enter_service_apply snap uid addr_offset regs w =
      if leb uid 1 then (some aggregate_only_read, w) else elim (inverter_of_unit snap uid) [
        | none ↦ (some unmapped_unit, w)
        | some inv ↦ write_delay inv.uid addr_offset regs w
      ]
