-- ===== src/Tests/Timers.antt =====
-- The reversion timers and their callbacks, on the test tables.
use apsystems_sunspec.Base.{
  ℕ, ◌≡◌, refl, Bool, some, List, [], ◌∷◌, Str, codes, arith, get_elem?, ◌==◌, not,
}
use apsystems_sunspec.Base.Int.{pos}
use apsystems_sunspec.Server.Reverter.{Timer, Reverter, find_timer, schedule, cancel, stop}
use apsystems_sunspec.Server.Reverter.Fire.{
  Runtime, start, later, waited, scheduled, expire, fire_locked, restore_each,
}
use apsystems_sunspec.Server.Reverter.Held.{IsIdle, IsIdle-schedule}
use apsystems_sunspec.Server.Reverter.Stopped.{IsIdle-stop}
use apsystems_sunspec.Server.Reverter.Stale.{get_elem?-cancel, limit_of-restore_each}
use apsystems_sunspec.Tests.Fleet.{world}
use apsystems_sunspec.Tests.Machine.{tables, tables-DatabaseLaws}

-- A timer of the unit 3, due at 130.
abbrev unit3 : Timer
unit3 = record { id = 0; unit = 3; due = 130; targets = codes "704000002" ∷ [] }

abbrev one_timer : Reverter
one_timer = record { timers = (3, 0) ∷ []; running = unit3 ∷ []; firing = []; next_id = 1 }

abbrev runtime : Runtime tables
runtime = record { now = 100; reverter = one_timer; restoring = []; db = world.db }

-- Every unit but 3 may be scheduled.
abbrev others : ℕ → Bool
others uid = not (uid == 3)

abbrev caps : List Str
caps = codes "704000002" ∷ []

-- The unit 3 is scheduled again at 100 for 60, then the unit 2 for 10, and 50 pass.
IsIdle-schedule_example : IsIdle tables 3 (record runtime {
  reverter = schedule 100 2 10 caps (schedule 100 3 60 caps one_timer);
  now = 150;
})
unfolding find_timer
IsIdle-schedule_example =
    IsIdle-schedule tables others 3 60 caps runtime _ (refl, tt) (tt, tt) refl
      (later (later start (scheduled 2 10 caps refl)) (waited 50)) (omega arith)

-- The server stops with the timer of the unit 3 running, and 1000 pass.
IsIdle-stop_example :
    ((stop one_timer).running ≡ [])
    × IsIdle tables 3 (record runtime { reverter = stop one_timer; now = 1100 })
unfolding find_timer
IsIdle-stop_example =
    IsIdle-stop tables others 3 runtime _ (refl, tt) (tt, tt) refl (later start (waited 1000))

-- The timer expires at 130, and the unit 3 is scheduled at 130 before its callback takes the lock.
get_elem?-cancel_example :
    get_elem?
      (cancel 3 (fire_locked unit3 [] (schedule 130 3 60 caps (expire unit3 [] one_timer)))).running
      0
    ≡ some (record { id = 1; unit = 3; due = 190; targets = caps })
unfolding expire
get_elem?-cancel_example =
    get_elem?-cancel 130 3 60 caps unit3 [] (expire unit3 [] one_timer) refl
      (λ e. ground (arith, e)) (λ e. ground (arith, e))

-- Both inverters of the fleet are targets.
limit_of-restore_each_example :
    (restore_each tables (codes "703000001" ∷ codes "704000002" ∷ []) world.db).limits
      (codes "704000002")
    ≡ some (pos 500)
limit_of-restore_each_example =
    limit_of-restore_each tables tables-DatabaseLaws (codes "704000002")
      (codes "703000001" ∷ codes "704000002" ∷ []) world.db (λ db. refl)
