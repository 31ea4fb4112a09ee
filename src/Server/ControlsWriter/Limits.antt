-- ===== src/Server/ControlsWriter/Limits.antt =====
-- What writes to Model 123 leave in the database, internal/server/controls_writer.go.
use apsystems_sunspec.Base.{
  elem, ℕ, not, ◌*◌, ◌≡◌, refl, sym, Bool, ◌&&◌, Option, some, none, List, [], ◌∷◌, Str, str_eq,
  ltb, ◌==◌, if◌then◌else◌, arith,
}
use apsystems_sunspec.Base.Int.{ℤ, pos, quot, ◌*ℤ◌}
use apsystems_sunspec.Source.Database.{Database, DatabaseLaws, updated, updated-updated}
use apsystems_sunspec.Source.Snapshot.{Snapshot}
use apsystems_sunspec.Source.Writer.{
  after-none, for_each, exec_context, set_max_power, set_turn_on_off, restore_full_power,
  max_panel_limit_w,
}
use apsystems_sunspec.Server.ControlsWriter.{
  target_uids, cap_watts, apply_cap, restore_full, apply_conn, arm_or_cancel_reversion, apply_limit,
  apply_connect, controls_apply,
}
use apsystems_sunspec.Server.Reverter.{cancel}
use apsystems_sunspec.Server.World.{World, on_db, write_touches, read_field}

-- The watts of a percentage: 5 for each percent, between 20 and 500.
abbrev pub watts_of : ℕ → ℕ
watts_of pct = if ltb 100 pct then 500 else if ltb pct 4 then 20 else 5 * pct

scaled : (c : ℕ) → quot (max_panel_limit_w *ℤ pos c) (pos 100) ≡ pos (5 * c)
unfolding quot ◌*ℤ◌
scaled c = ground arith

pub cap_watts-watts_of : (pct : ℕ) → cap_watts pct ≡ pos (watts_of pct)
unfolding cap_watts
cap_watts-watts_of pct = rw (scaled (if ltb 100 pct then 100 else pct)) (ground arith)

module _ {F : Type 0} (d : Database F) (laws : DatabaseLaws d) where
  open laws use {limit_of, limit_of-update_power, limit_of-replace_turn_on_off}

  set_max_power-limit :
      (uid j : Str) (watts : ℤ) (db : d.Db)
      → (set_max_power d uid watts db).0 ≡ none
      → limit_of (set_max_power d uid watts db).1 j
        ≡ (if str_eq uid j then updated (limit_of db j) watts else limit_of db j)
  unfolding set_max_power exec_context
  set_max_power-limit uid j watts db ok = ground (arith, ok, limit_of-update_power uid j watts db)

  set_turn_on_off-limit :
      (uid j : Str) (on : Bool) (db : d.Db)
      → limit_of (set_turn_on_off d uid on db).1 j ≡ limit_of db j
  unfolding set_turn_on_off exec_context
  set_turn_on_off-limit uid j on db = limit_of-replace_turn_on_off uid j _ db

  -- The same limit for each target.
  for_each-limit :
      (watts : ℤ) (uids : List Str) (w : World d) (j : Str)
      → (for_each (λ uid. on_db (set_max_power d uid watts)) uids w).0 ≡ none
      → limit_of (for_each (λ uid. on_db (set_max_power d uid watts)) uids w).1.db j
        ≡ (if elem j uids then updated (limit_of w.db j) watts else limit_of w.db j)
  unfolding for_each
  for_each-limit watts [] w j ok = refl
  for_each-limit watts (uid ∷ uids) w j ok =
      let (first, step) = after-none (on_db (set_max_power d uid watts) w) _ ok in
      let w1 = (on_db (set_max_power d uid watts) w).1 in
      rw step (
        ground (
          arith,
          for_each-limit watts uids w1 j (rw (sym step) ok),
          set_max_power-limit uid j watts w.db first,
          updated-updated (limit_of w.db j) watts,
        ))

  for_each-conn :
      (on : Bool) (uids : List Str) (w : World d) (j : Str)
      → limit_of (for_each (λ uid. on_db (set_turn_on_off d uid on)) uids w).1.db j
        ≡ limit_of w.db j
  unfolding for_each
  for_each-conn on [] w j = refl
  for_each-conn on (uid ∷ uids) w j = ground (
    arith,
    for_each-conn on uids (on_db (set_turn_on_off d uid on) w).1 j,
    set_turn_on_off-limit uid j on w.db,
  )

  -- The watts that a write commands, if any.
  abbrev pub commanded : ℕ → List ℕ → Option ℤ
  commanded addr_offset regs =
      if write_touches addr_offset regs 7 && read_field addr_offset regs 7 == 0
      then some (pos 500)
      else if write_touches addr_offset regs 3
      then some (pos (watts_of (read_field addr_offset regs 3)))
      else none

  -- The limit of an inverter after a command to the targets.
  abbrev pub limited : Option ℤ → Bool → Option ℤ → Option ℤ
  limited none target old = old
  limited (some watts) target old = if target then updated old watts else old

  restore-limit :
      (uids : List Str) (w : World d) (j : Str)
      → (restore_full d uids w).0 ≡ none
      → limit_of (restore_full d uids w).1.db j
        ≡ limited (some (pos 500)) (elem j uids) (limit_of w.db j)
  unfolding restore_full restore_full_power
  restore-limit uids w j ok = for_each-limit (pos 500) uids w j ok

  apply_cap-limit :
      (uids : List Str) (pct : ℕ) (w : World d) (j : Str)
      → (apply_cap d uids pct w).0 ≡ none
      → limit_of (apply_cap d uids pct w).1.db j
        ≡ limited (some (pos (watts_of pct))) (elem j uids) (limit_of w.db j)
  unfolding apply_cap
  apply_cap-limit uids pct w j ok =
      rw (sym (cap_watts-watts_of pct)) (for_each-limit (cap_watts pct) uids w j ok)

  pub arm_or_cancel-db :
      (uid secs : ℕ) (targets : List Str) (w : World d)
      → (arm_or_cancel_reversion d uid secs targets w).db ≡ w.db
  unfolding arm_or_cancel_reversion
  arm_or_cancel-db uid secs targets w = ground arith

  apply_limit-limits :
      (uid : ℕ) (targets : List Str) (addr_offset : ℕ) (regs : List ℕ) (w : World d) (j : Str)
      → (apply_limit d uid targets addr_offset regs w).0 ≡ none
      → limit_of (apply_limit d uid targets addr_offset regs w).1.db j
        ≡ limited (commanded addr_offset regs) (elem j targets) (limit_of w.db j)
  unfolding apply_limit
  apply_limit-limits uid targets addr_offset regs w j ok =
      let pct = read_field addr_offset regs 3 in
      let cap = apply_cap d targets pct w in
      ground (
        arith,
        ok,
        restore-limit targets (record w { reverter = cancel uid w.reverter }) j,
        apply_cap-limit targets pct w j,
        arm_or_cancel-db uid (read_field addr_offset regs 5) targets cap.1,
      )

  -- Conn has no part in the limits.
  apply_connect-limits :
      (targets : List Str) (addr_offset : ℕ) (regs : List ℕ) (w : World d) (j : Str)
      → limit_of (apply_connect d targets addr_offset regs w).1.db j ≡ limit_of w.db j
  unfolding apply_connect apply_conn
  apply_connect-limits targets addr_offset regs w j =
      ground (arith, for_each-conn (not (read_field addr_offset regs 2 == 0)) targets w j)

  -- A write to Model 123 that succeeds leaves each inverter that the unit stands for, and that has a
  -- row, at the commanded limit: 500 W where WMaxLim_Ena is written as 0, else 5 W for each percent
  -- of a WMaxLimPct that is written, between 20 W and 500 W. Every other inverter keeps its limit, and
  -- all do where neither register is written.
  pub controls_apply-limits :
      (snap : Snapshot F) (uid addr_offset : ℕ) (regs : List ℕ) (w : World d) (j : Str)
      → (controls_apply d snap uid addr_offset regs w).0 ≡ none
      → limit_of (controls_apply d snap uid addr_offset regs w).1.db j
        ≡ limited (commanded addr_offset regs) (elem j (target_uids snap uid)) (limit_of w.db j)
  unfolding controls_apply
  controls_apply-limits snap uid addr_offset regs w j ok =
      let targets = target_uids snap uid in
      let first = apply_limit d uid targets addr_offset regs w in
      ground (
        arith,
        ok,
        apply_limit-limits uid targets addr_offset regs w j,
        apply_connect-limits targets addr_offset regs first.1 j,
      )
