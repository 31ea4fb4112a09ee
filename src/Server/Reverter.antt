-- ===== src/Server/Reverter.antt =====
-- internal/server/reverter.go: the timers that lift a cap when the controller falls silent.
-- `running` are the timers that the runtime holds, `firing` the callbacks that it has started and
-- that have not yet taken the lock; `timers` is the map from a unit to the identity of its timer.
pub mod Fire
pub mod Held
pub mod Orderly
pub mod Stale
pub mod Stopped
pub mod Timers
use apsystems_sunspec.Base.{
  ℕ, suc, ◌+◌, Bool, true, false, not, ◌||◌, Option, some, none, List, [], ◌∷◌, Str, length, ltb,
  ◌==◌, if◌then◌else◌,
}

pub record Timer : Type 0 where
  pub id : ℕ
  pub unit : ℕ
  pub due : ℕ
  pub targets : List Str

pub record Reverter : Type 0 where
  pub timers : List (ℕ × ℕ)
  pub running : List Timer
  pub firing : List Timer
  pub next_id : ℕ

unfoldable pub find_timer : ℕ → List (ℕ × ℕ) → Option ℕ
find_timer uid [] = none
find_timer uid ((u, id) ∷ m) = if u == uid then some id else find_timer uid m

unfoldable pub delete_timer : ℕ → List (ℕ × ℕ) → List (ℕ × ℕ)
delete_timer uid [] = []
delete_timer uid ((u, id) ∷ m) =
    let rest = delete_timer uid m in if u == uid then rest else (u, id) ∷ rest

-- t.Stop(): a timer that has begun to fire is not stopped.
unfoldable pub stop_running : ℕ → List Timer → List Timer
stop_running id [] = []
stop_running id (t ∷ ts) = let rest = stop_running id ts in if t.id == id then rest else t ∷ rest

-- Cancel
unfoldable pub cancel : ℕ → Reverter → Reverter
cancel uid r = elim (find_timer uid r.timers) [
  | none ↦ r
  | some id ↦ record r { timers = delete_timer uid r.timers; running = stop_running id r.running }
]

-- Schedule, with the time `now` from which `after` counts.
unfoldable pub schedule : ℕ → ℕ → ℕ → List Str → Reverter → Reverter
schedule now uid after targets r =
    let stopped = cancel uid r in
    if after == 0 || length targets == 0 then stopped else record stopped {
      timers = (uid, stopped.next_id) ∷ stopped.timers;
      running =
          record { id = stopped.next_id; unit = uid; due = now + after; targets = targets }
          ∷ stopped.running;
      next_id = suc stopped.next_id;
    }

stop_each : List (ℕ × ℕ) → List Timer → List Timer
stop_each [] ts = ts
stop_each ((uid, id) ∷ m) ts = stop_each m (stop_running id ts)

-- Stop
unfoldable pub stop : Reverter → Reverter
unfolding stop_each
stop r = record r { timers = []; running = stop_each r.timers r.running }

unfoldable pub pending : ℕ → Reverter → Bool
pending uid r = elim (find_timer uid r.timers) [ none ↦ false | some id ↦ true ]
