-- ===== src/Server/Reverter/Stale.antt =====
-- What a callback of internal/server/reverter.go does: the restores, and what it takes from the map.
use apsystems_sunspec.Base.{
  elem, ℕ, ◌≡◌, ◌≢◌, refl, ◌∙◌, true, some, List, [], ◌∷◌, Str, str_eq_iff, str_eq_refl, arith,
  if◌then◌else◌, length, get_elem?, Option-cases, ◌+◌, ap, inl, inr, Bool-cases,
}
use apsystems_sunspec.Source.Database.{
  Database, DatabaseLaws, updated, updated-updated, update_power,
}
use apsystems_sunspec.Source.Writer.{
  restore_full_power, set_max_power, exec_context, max_panel_limit_w,
}
use apsystems_sunspec.Server.Reverter.{Timer, Reverter, find_timer, cancel, schedule}
use apsystems_sunspec.Server.Reverter.Timers.{find_timer-delete}
use apsystems_sunspec.Server.Reverter.Fire.{restore_one, restore_each, fire_locked}

pub cancel-next_id : (uid : ℕ) (r : Reverter) → (cancel uid r).next_id ≡ r.next_id
unfolding cancel
cancel-next_id uid r = elim (Option-cases (find_timer uid r.timers)) [
  | inl e ↦ rw (cancel, e) refl
  | inr (id, e) ↦ rw (cancel, e) refl
]

schedule-running :
    (now uid after : ℕ) (targets : List Str) (r : Reverter)
    → after ≢ 0
    → length targets ≢ 0
    → get_elem? (schedule now uid after targets r).running 0
      ≡ some (record { id = r.next_id; unit = uid; due = now + after; targets = targets })
unfolding schedule
schedule-running now uid after targets r h k = ground (arith, h, k, cancel-next_id uid r)

cancel-late :
    (uid : ℕ) (t : Timer) (others : List Timer) (r : Reverter)
    → t.unit ≡ uid
    → cancel uid (fire_locked t others r) ≡ fire_locked t others r
unfolding cancel fire_locked
cancel-late uid t others r e = ground (arith, e, find_timer-delete uid t.unit r.timers)

-- When a callback of a unit is already due as the unit is scheduled again, with a time and targets that
-- are not empty, it takes the new timer's entry from the map: after a Cancel that follows, the new
-- timer still runs.
pub get_elem?-cancel :
    (now uid after : ℕ) (targets : List Str) (t : Timer) (others : List Timer) (r : Reverter)
    → t.unit ≡ uid
    → after ≢ 0
    → length targets ≢ 0
    → let late = fire_locked t others (schedule now uid after targets r) in
      get_elem? (cancel uid late).running 0
      ≡ some (record { id = r.next_id; unit = uid; due = now + after; targets = targets })
unfolding fire_locked
get_elem?-cancel now uid after targets t others r e h k =
    ap (λ (x : Reverter). get_elem? x.running 0)
      (cancel-late uid t others (schedule now uid after targets r) e)
    ∙ schedule-running now uid after targets r h k

module _ {F : Type 0} (d : Database F) (laws : DatabaseLaws d) where
  open d use {Db, exec}
  open laws use {limit_of, exec_failed, limit_of-update_power}

  restore_one-exec :
      (target : Str) (db : Db)
      → restore_one d target db ≡ (exec (update_power target max_panel_limit_w) db).1
  unfolding restore_one restore_full_power set_max_power exec_context
  restore_one-exec target db = refl

  -- A statement of another inverter, done or failed, leaves a limit as it is.
  limit_of-restore_one-other :
      (target u : Str) (db : Db) → target ≢ u → limit_of (restore_one d target db) u ≡ limit_of db u
  limit_of-restore_one-other target u db h =
      rw (restore_one-exec target db)
        (elim (Bool-cases (exec (update_power target max_panel_limit_w) db).0) [
          | inl ok ↦
              limit_of-update_power target u max_panel_limit_w db ok
              ∙ ground (arith, h, str_eq_iff target u)
          | inr bad ↦
              ap (λ x. limit_of x u) (exec_failed (update_power target max_panel_limit_w) db bad)
        ])

  limit_of-restore_one-same :
      (u : Str) (db : Db)
      → (exec (update_power u max_panel_limit_w) db).0 ≡ true
      → limit_of (restore_one d u db) u ≡ updated (limit_of db u) max_panel_limit_w
  limit_of-restore_one-same u db ok =
      rw (restore_one-exec u db)
        (limit_of-update_power u u max_panel_limit_w db ok ∙ ground (arith, str_eq_refl u))

  -- For an inverter whose own statement never fails, the loop of a callback sets its power limit, if it
  -- has one, to the maximum when the inverter is among the targets, and leaves it otherwise, whatever
  -- statements of the other inverters fail.
  pub limit_of-restore_each :
      (u : Str) (targets : List Str) (db : Db)
      → ((db' : Db) → (exec (update_power u max_panel_limit_w) db').0 ≡ true)
      → limit_of (restore_each d targets db) u
        ≡ (if elem u targets then updated (limit_of db u) max_panel_limit_w else limit_of db u)
  unfolding restore_each
  limit_of-restore_each u [] db ok = refl
  limit_of-restore_each u (target ∷ targets) db ok =
      limit_of-restore_each u targets (restore_one d target db) ok
      ∙ ground (
        arith,
        str_eq_iff target u,
        limit_of-restore_one-other target u db,
        limit_of-restore_one-same u db (ok db),
        updated-updated (limit_of db u) max_panel_limit_w,
      )
