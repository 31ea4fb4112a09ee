-- ===== src/Server/ControlsWriter.antt =====
-- internal/server/controls_writer.go: writes to Model 123.
pub mod Limits
pub mod ReadBack
pub mod Reversion
pub mod Switches
use apsystems_sunspec.Base.{
  ℕ, ◌*◌, ◌^◌, Bool, not, ◌&&◌, ◌||◌, Option, some, none, List, [], ◌∷◌, Str, length, map, leb, ltb,
  ◌==◌, if◌then◌else◌,
}
use apsystems_sunspec.Base.Int.{ℤ, pos, ◌*ℤ◌, quot, ltb_ℤ}
use apsystems_sunspec.Source.Database.{Database}
use apsystems_sunspec.Source.Inverter.{Inverter}
use apsystems_sunspec.Source.Snapshot.{Snapshot}
use apsystems_sunspec.Source.Writer.{
  Error, no_inverters, Action, after, for_each, min_panel_limit_w, max_panel_limit_w, set_max_power,
  set_turn_on_off, restore_full_power,
}
use apsystems_sunspec.Sunspec.Controls.{
  off_controls_conn, off_controls_w_max_lim_pct, off_controls_w_max_lim_pct_rvrt_tms,
  off_controls_w_max_lim_ena,
}
use apsystems_sunspec.Server.Reverter.{Reverter, cancel, schedule}
use apsystems_sunspec.Server.World.{World, on_db, write_touches, read_field, inverter_of_unit}

unfoldable pub target_uids : {F : Type 0} → Snapshot F → ℕ → List Str
target_uids snap uid =
    if leb uid 1
    then map (λ inv. inv.uid) snap.inverters
    else elim (inverter_of_unit snap uid) [ some inv ↦ inv.uid ∷ [] | none ↦ [] ]

-- The watts of applyCap.
unfoldable pub cap_watts : ℕ → ℤ
cap_watts pct =
    let capped = if ltb 100 pct then 100 else pct in
    let watts = quot (max_panel_limit_w *ℤ pos capped) (pos 100) in
    if ltb_ℤ watts min_panel_limit_w then min_panel_limit_w else watts

module _ {F : Type 0} (d : Database F) where
  restore_full : List Str → Action (World d)
  restore_full uids = for_each (λ uid. on_db (restore_full_power d uid)) uids

  apply_cap : List Str → ℕ → Action (World d)
  apply_cap uids pct = for_each (λ uid. on_db (set_max_power d uid (cap_watts pct))) uids

  pub arm_or_cancel_reversion : ℕ → ℕ → List Str → World d → World d
  arm_or_cancel_reversion uid rvrt_tms_sec targets w =
      if rvrt_tms_sec == 0 || rvrt_tms_sec == 0xFFFF
      then record w { reverter = cancel uid w.reverter }
      else record w { reverter = schedule w.clock uid (rvrt_tms_sec * 10 ^ 9) targets w.reverter }

  apply_conn : List Str → ℕ → Action (World d)
  apply_conn uids conn = for_each (λ uid. on_db (set_turn_on_off d uid (not (conn == 0)))) uids

  -- The first half of Apply: WMaxLim_Ena, WMaxLimPct and its reversion time.
  unfoldable pub apply_limit : ℕ → List Str → ℕ → List ℕ → Action (World d)
  unfolding restore_full apply_cap arm_or_cancel_reversion
  apply_limit uid targets addr_offset regs w =
      if write_touches addr_offset regs off_controls_w_max_lim_ena
        && read_field addr_offset regs off_controls_w_max_lim_ena == 0
      then restore_full targets (record w { reverter = cancel uid w.reverter })
      else if write_touches addr_offset regs off_controls_w_max_lim_pct
      then after (apply_cap targets (read_field addr_offset regs off_controls_w_max_lim_pct) w)
          (λ w'. (
            none,
            if write_touches addr_offset regs off_controls_w_max_lim_pct_rvrt_tms
                then arm_or_cancel_reversion uid
                    (read_field addr_offset regs off_controls_w_max_lim_pct_rvrt_tms) targets w'
                else w',
          ))
      else (none, w)

  -- The second half: Conn.
  unfoldable pub apply_connect : List Str → ℕ → List ℕ → Action (World d)
  unfolding apply_conn
  apply_connect targets addr_offset regs w =
      if write_touches addr_offset regs off_controls_conn
      then apply_conn targets (read_field addr_offset regs off_controls_conn) w
      else (none, w)

  unfoldable pub controls_apply : Snapshot F → ℕ → ℕ → List ℕ → Action (World d)
  unfolding apply_limit apply_connect
  controls_apply snap uid addr_offset regs w =
      let targets = target_uids snap uid in
      if length targets == 0
      then (some no_inverters, w)
      else after (apply_limit uid targets addr_offset regs w)
          (apply_connect targets addr_offset regs)
