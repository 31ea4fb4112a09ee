-- ===== src/Server/ControlsWriter/Reversion.antt =====
-- What writes to Model 123 do to the reversion timers, internal/server/controls_writer.go.
use apsystems_sunspec.Base.{
  ℕ, ◌+◌, ◌*◌, ◌^◌, ◌≡◌, ◌≢◌, refl, Bool, true, false, not, ◌&&◌, ◌||◌, Option, some, none, List,
  [], ◌∷◌, Str, length, ◌==◌, if◌then◌else◌, arith,
}
use apsystems_sunspec.Source.Database.{Database}
use apsystems_sunspec.Source.Snapshot.{Snapshot}
use apsystems_sunspec.Source.Writer.{Action, for_each, set_turn_on_off}
use apsystems_sunspec.Server.ControlsWriter.{
  target_uids, apply_cap, restore_full, apply_conn, arm_or_cancel_reversion, apply_limit,
  apply_connect, controls_apply,
}
use apsystems_sunspec.Server.Reverter.{Timer, Reverter, cancel, schedule, pending}
use apsystems_sunspec.Server.Reverter.Orderly.{
  IsOrderly, without, running-cancel, running-schedule, cancel-IsOrderly, schedule-IsOrderly,
}
use apsystems_sunspec.Server.Reverter.Timers.{pending-cancel, pending-schedule}
use apsystems_sunspec.Server.World.{World, on_db, write_touches, read_field}

module _ {F : Type 0} (d : Database F) where
  -- What the statements on the database leave alone.
  abbrev IsKept : World d → World d → Type 0
  IsKept w w' = (w'.reverter ≡ w.reverter) × (w'.clock ≡ w.clock)

  for_each-IsKept :
      (act : Str → Action d.Db) (uids : List Str) (w : World d)
      → IsKept w (for_each (λ uid. on_db (act uid)) uids w).1
  unfolding for_each
  for_each-IsKept act [] w = (refl, refl)
  for_each-IsKept act (uid ∷ uids) w =
      ground (arith, for_each-IsKept act uids (on_db (act uid) w).1)

  restore_full-IsKept : (uids : List Str) (w : World d) → IsKept w (restore_full d uids w).1
  unfolding restore_full
  restore_full-IsKept uids w = for_each-IsKept _ uids w

  apply_cap-IsKept : (uids : List Str) (pct : ℕ) (w : World d) → IsKept w (apply_cap d uids pct w).1
  unfolding apply_cap
  apply_cap-IsKept uids pct w = for_each-IsKept _ uids w

  apply_connect-IsKept :
      (targets : List Str) (addr_offset : ℕ) (regs : List ℕ) (w : World d)
      → IsKept w (apply_connect d targets addr_offset regs w).1
  unfolding apply_connect apply_conn
  apply_connect-IsKept targets addr_offset regs w = ground (
    arith,
    for_each-IsKept (λ uid. set_turn_on_off d uid (not (read_field addr_offset regs 2 == 0)))
        targets w,
  )

-- Whether a time asks for a timer: 0 and the sentinel do not.
abbrev pub is_time : ℕ → Bool
is_time secs = not (secs == 0 || secs == 0xFFFF)

-- What a write commands of the unit's timer, if anything: to run or not.
abbrev pub timer_command : ℕ → List ℕ → Option Bool
timer_command addr_offset regs =
    if write_touches addr_offset regs 7 && read_field addr_offset regs 7 == 0
    then some false
    else if write_touches addr_offset regs 3 && write_touches addr_offset regs 5
    then some (is_time (read_field addr_offset regs 5))
    else none

-- The reverter after such a command, with a time of `secs` seconds.
abbrev pub commanded : Option Bool → ℕ → ℕ → ℕ → List Str → Reverter → Reverter
commanded none now uid secs targets r = r
commanded (some false) now uid secs targets r = cancel uid r
commanded (some true) now uid secs targets r = schedule now uid (secs * 10 ^ 9) targets r

-- The timers that run after such a command, where `t` is the unit's new timer.
abbrev pub running_after : Option Bool → Timer → List Timer → List Timer
running_after none t ts = ts
running_after (some false) t ts = without t.unit ts
running_after (some true) t ts = t ∷ without t.unit ts

abbrev pub obeyed : Option Bool → Bool → Bool → Bool
obeyed none own old = old
obeyed (some run) own old = if own then run else old

module _ (now uid secs : ℕ) (targets : List Str) (r : Reverter) where
  running-commanded :
      (c : Option Bool)
      → (c ≡ some true → secs ≢ 0)
      → length targets ≢ 0
      → IsOrderly r
      → (commanded c now uid secs targets r).running
        ≡ running_after c
            (record { id = r.next_id; unit = uid; due = now + secs * 10 ^ 9; targets = targets })
            r.running
  running-commanded none h k orderly = refl
  running-commanded (some false) h k orderly = running-cancel uid r orderly
  running-commanded (some true) h k orderly =
      running-schedule now uid (secs * 10 ^ 9) targets r (omega (arith, h refl)) k orderly

  commanded-IsOrderly :
      (c : Option Bool)
      → (c ≡ some true → secs ≢ 0)
      → length targets ≢ 0
      → IsOrderly r
      → IsOrderly (commanded c now uid secs targets r)
  commanded-IsOrderly none h k orderly = orderly
  commanded-IsOrderly (some false) h k orderly = cancel-IsOrderly uid r orderly
  commanded-IsOrderly (some true) h k orderly =
      schedule-IsOrderly now uid (secs * 10 ^ 9) targets r (omega (arith, h refl)) k orderly

  pending-commanded :
      (c : Option Bool) (u : ℕ)
      → (c ≡ some true → secs ≢ 0)
      → length targets ≢ 0
      → pending u (commanded c now uid secs targets r) ≡ obeyed c (uid == u) (pending u r)
  pending-commanded none u h k = refl
  pending-commanded (some false) u h k = pending-cancel uid u r
  pending-commanded (some true) u h k =
      ground (arith, h refl, k, pending-schedule now uid (secs * 10 ^ 9) u targets r)

module _ {F : Type 0} (d : Database F) where
  apply_limit-commanded :
      (uid : ℕ) (targets : List Str) (addr_offset : ℕ) (regs : List ℕ) (w : World d)
      → (apply_limit d uid targets addr_offset regs w).0 ≡ none
      → (apply_limit d uid targets addr_offset regs w).1.reverter
        ≡ commanded
            (timer_command addr_offset regs)
            w.clock
            uid
            (read_field addr_offset regs 5)
            targets
            w.reverter
  unfolding apply_limit arm_or_cancel_reversion
  apply_limit-commanded uid targets addr_offset regs w ok = ground (
    arith,
    ok,
    restore_full-IsKept d targets (record w { reverter = cancel uid w.reverter }),
    apply_cap-IsKept d targets (read_field addr_offset regs 3) w,
  )

  controls_apply-commanded :
      (snap : Snapshot F) (uid addr_offset : ℕ) (regs : List ℕ) (w : World d)
      → (controls_apply d snap uid addr_offset regs w).0 ≡ none
      → (length (target_uids snap uid) ≢ 0)
        × ((controls_apply d snap uid addr_offset regs w).1.reverter
            ≡ commanded
                (timer_command addr_offset regs)
                w.clock
                uid
                (read_field addr_offset regs 5)
                (target_uids snap uid)
                w.reverter)
  unfolding controls_apply
  controls_apply-commanded snap uid addr_offset regs w ok =
      let targets = target_uids snap uid in
      let first = apply_limit d uid targets addr_offset regs w in
      ground (
        arith,
        ok,
        apply_limit-commanded uid targets addr_offset regs w,
        apply_connect-IsKept d targets addr_offset regs first.1,
      )

  -- Where every running timer is the one that the map has for its unit, each unit has its own and the
  -- next one is new, a write to Model 123 that succeeds keeps it so. Where it writes WMaxLim_Ena as 0,
  -- or WMaxLimPct with a reversion time that is 0 or the sentinel, no timer of the unit runs any more;
  -- where it writes WMaxLimPct with another reversion time, one timer of the unit runs, due in that many
  -- seconds for the inverters that the write targets; and else the unit's timer runs as it did, or not.
  -- The timers of the other units run on, and `pending` says the same of every unit.
  pub controls_apply-running :
      (snap : Snapshot F) (uid addr_offset : ℕ) (regs : List ℕ) (w : World d)
      → IsOrderly w.reverter
      → (controls_apply d snap uid addr_offset regs w).0 ≡ none
      → let r = (controls_apply d snap uid addr_offset regs w).1.reverter in
        let secs = read_field addr_offset regs 5 in
        let timer : Timer = record {
          id = w.reverter.next_id;
          unit = uid;
          due = w.clock + secs * 10 ^ 9;
          targets = target_uids snap uid;
        } in
        IsOrderly r
        × (r.running ≡ running_after (timer_command addr_offset regs) timer w.reverter.running)
        × ((u : ℕ)
            → pending u r
              ≡ obeyed (timer_command addr_offset regs) (uid == u) (pending u w.reverter))
  controls_apply-running snap uid addr_offset regs w orderly ok =
      let (some_target, e) = controls_apply-commanded snap uid addr_offset regs w ok in
      let targets = target_uids snap uid in
      let secs = read_field addr_offset regs 5 in
      let c = timer_command addr_offset regs in
      let timed : c ≡ some true → secs ≢ 0 = λ h k. ground (arith, h, k) in
      rw e (
        commanded-IsOrderly w.clock uid secs targets w.reverter c timed some_target orderly,
        running-commanded w.clock uid secs targets w.reverter c timed some_target orderly,
        λ u. pending-commanded w.clock uid secs targets w.reverter c u timed some_target,
      )
