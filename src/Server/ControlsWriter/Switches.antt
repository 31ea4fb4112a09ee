-- ===== src/Server/ControlsWriter/Switches.antt =====
-- Which inverters writes to Model 123 turn on or off, internal/server/controls_writer.go.
use apsystems_sunspec.Base.{
  elem, ℕ, not, ◌≡◌, refl, sym, Bool, ◌&&◌, some, none, List, [], ◌∷◌, Str, str_eq, ◌==◌,
  if◌then◌else◌, arith,
}
use apsystems_sunspec.Base.Int.{ℤ}
use apsystems_sunspec.Source.Database.{Database, DatabaseLaws}
use apsystems_sunspec.Source.Snapshot.{Snapshot}
use apsystems_sunspec.Source.Writer.{
  after-none, for_each, exec_context, set_max_power, set_turn_on_off, restore_full_power,
  max_panel_limit_w,
}
use apsystems_sunspec.Server.ControlsWriter.{
  target_uids, cap_watts, apply_cap, restore_full, apply_conn, apply_limit, apply_connect,
  controls_apply,
}
use apsystems_sunspec.Server.ControlsWriter.Limits.{arm_or_cancel-db}
use apsystems_sunspec.Server.Reverter.{cancel}
use apsystems_sunspec.Server.World.{World, on_db, write_touches, read_field}

module _ {F : Type 0} (d : Database F) (laws : DatabaseLaws d) where
  open laws use {switch_of, switch_of-update_power, switch_of-replace_turn_on_off}

  abbrev flag_of : Bool → ℕ
  flag_of on = if on then 1 else 0

  set_max_power-switch :
      (uid j : Str) (watts : ℤ) (db : d.Db)
      → switch_of (set_max_power d uid watts db).1 j ≡ switch_of db j
  unfolding set_max_power exec_context
  set_max_power-switch uid j watts db = ground (arith, switch_of-update_power uid j watts db)

  set_turn_on_off-switch :
      (uid j : Str) (on : Bool) (db : d.Db)
      → (set_turn_on_off d uid on db).0 ≡ none
      → switch_of (set_turn_on_off d uid on db).1 j
        ≡ (if str_eq uid j then some (flag_of on) else switch_of db j)
  unfolding set_turn_on_off exec_context
  set_turn_on_off-switch uid j on db ok =
      ground (arith, ok, switch_of-replace_turn_on_off uid j (flag_of on) db)

  -- The loops over the targets.
  for_each-max_power :
      (watts : ℤ) (uids : List Str) (w : World d) (j : Str)
      → switch_of (for_each (λ uid. on_db (set_max_power d uid watts)) uids w).1.db j
        ≡ switch_of w.db j
  unfolding for_each
  for_each-max_power watts [] w j = refl
  for_each-max_power watts (uid ∷ uids) w j = ground (
    arith,
    for_each-max_power watts uids (on_db (set_max_power d uid watts) w).1 j,
    set_max_power-switch uid j watts w.db,
  )

  for_each-switches :
      (on : Bool) (uids : List Str) (w : World d) (j : Str)
      → (for_each (λ uid. on_db (set_turn_on_off d uid on)) uids w).0 ≡ none
      → switch_of (for_each (λ uid. on_db (set_turn_on_off d uid on)) uids w).1.db j
        ≡ (if elem j uids then some (flag_of on) else switch_of w.db j)
  unfolding for_each
  for_each-switches on [] w j ok = refl
  for_each-switches on (uid ∷ uids) w j ok =
      let (first, step) = after-none (on_db (set_turn_on_off d uid on) w) _ ok in
      let w1 = (on_db (set_turn_on_off d uid on) w).1 in
      rw step (
        ground (
          arith,
          for_each-switches on uids w1 j (rw (sym step) ok),
          set_turn_on_off-switch uid j on w.db first,
        ))

  -- The registers of the limit turn nothing on or off.
  apply_limit-switches :
      (uid : ℕ) (targets : List Str) (addr_offset : ℕ) (regs : List ℕ) (w : World d) (j : Str)
      → switch_of (apply_limit d uid targets addr_offset regs w).1.db j ≡ switch_of w.db j
  unfolding apply_limit restore_full restore_full_power apply_cap
  apply_limit-switches uid targets addr_offset regs w j =
      let watts = cap_watts (read_field addr_offset regs 3) in
      let quiet : World d = record w { reverter = cancel uid w.reverter } in
      ground (
        arith,
        for_each-max_power max_panel_limit_w targets quiet j,
        for_each-max_power watts targets w j,
        arm_or_cancel-db d laws uid (read_field addr_offset regs 5) targets
            (apply_cap d targets (read_field addr_offset regs 3) w).1,
      )

  apply_connect-switches :
      (targets : List Str) (addr_offset : ℕ) (regs : List ℕ) (w : World d) (j : Str)
      → (apply_connect d targets addr_offset regs w).0 ≡ none
      → switch_of (apply_connect d targets addr_offset regs w).1.db j ≡ (
          if write_touches addr_offset regs 2 && elem j targets
          then some (flag_of (not (read_field addr_offset regs 2 == 0)))
          else switch_of w.db j)
  unfolding apply_connect apply_conn
  apply_connect-switches targets addr_offset regs w j ok =
      ground (arith, ok, for_each-switches (not (read_field addr_offset regs 2 == 0)) targets w j)

  -- A write to Model 123 that succeeds and that covers Conn leaves each inverter that the unit stands
  -- for turned off, where Conn is written as 0, and else turned on. Every other inverter's switch is
  -- as it was, and so are all where Conn is not written: a limit turns nothing on or off.
  pub controls_apply-switches :
      (snap : Snapshot F) (uid addr_offset : ℕ) (regs : List ℕ) (w : World d) (j : Str)
      → (controls_apply d snap uid addr_offset regs w).0 ≡ none
      → switch_of (controls_apply d snap uid addr_offset regs w).1.db j ≡ (
          if write_touches addr_offset regs 2 && elem j (target_uids snap uid)
          then some (if read_field addr_offset regs 2 == 0 then 0 else 1)
          else switch_of w.db j)
  unfolding controls_apply
  controls_apply-switches snap uid addr_offset regs w j ok =
      let targets = target_uids snap uid in
      let first = apply_limit d uid targets addr_offset regs w in
      ground (
        arith,
        ok,
        apply_limit-switches uid targets addr_offset regs w j,
        apply_connect-switches targets addr_offset regs first.1 j,
      )
