-- ===== src/Server/Reverter/Orderly.antt =====
-- The timers that run after Schedule and Cancel, internal/server/reverter.go.
use apsystems_sunspec.Base.{
  ℕ, suc, ◌+◌, ◌<◌, ◌≡◌, ◌≢◌, refl, some, none, List, [], ◌∷◌, Str, length, ◌==◌, if◌then◌else◌,
  arith, All, Option-cases, inl, inr,
}
use apsystems_sunspec.Server.Reverter.{Timer, Reverter, find_timer, stop_running, cancel, schedule}
use apsystems_sunspec.Server.Reverter.Stale.{cancel-next_id}
use apsystems_sunspec.Server.Reverter.Timers.{
  IsCurrent, IsOwned, find_timer-cancel, cancel-IsOwned, schedule-IsOwned,
}

-- Two units do not share a timer.
abbrev pub IsDistinct : Reverter → Type 0
IsDistinct r =
    (u v id : ℕ) → find_timer u r.timers ≡ some id → find_timer v r.timers ≡ some id → u ≡ v

-- The next timer is none of those in the map.
abbrev pub IsFresh : Reverter → Type 0
IsFresh r = (u id : ℕ) → find_timer u r.timers ≡ some id → id < r.next_id

-- Every running timer is the one that the map has for its unit, and each unit has its own.
abbrev pub IsOrderly : Reverter → Type 0
IsOrderly r = IsOwned r × IsDistinct r × IsFresh r

-- The timers of the other units.
abbrev pub without : ℕ → List Timer → List Timer
without uid [] = []
without uid (t ∷ ts) = if t.unit == uid then without uid ts else t ∷ without uid ts

without-none :
    (uid : ℕ) (m : List (ℕ × ℕ)) (ts : List Timer)
    → find_timer uid m ≡ none
    → All (IsCurrent m) ts
    → without uid ts ≡ ts
without-none uid m [] gone all = refl
without-none uid m (t ∷ ts) gone all = ground (arith, gone, all.0, without-none uid m ts gone all.1)

stop_running-without :
    (uid id : ℕ) (m : List (ℕ × ℕ)) (ts : List Timer)
    → ((u v i : ℕ) → find_timer u m ≡ some i → find_timer v m ≡ some i → u ≡ v)
    → find_timer uid m ≡ some id
    → All (IsCurrent m) ts
    → stop_running id ts ≡ without uid ts
unfolding stop_running
stop_running-without uid id m [] distinct here all = refl
stop_running-without uid id m (t ∷ ts) distinct here all = ground (
  arith,
  here,
  all.0,
  distinct t.unit uid id,
  stop_running-without uid id m ts distinct here all.1,
)

-- Cancel stops the timers of the unit, and no others.
pub running-cancel :
    (uid : ℕ) (r : Reverter) → IsOrderly r → (cancel uid r).running ≡ without uid r.running
unfolding cancel
running-cancel uid r (owned, distinct, fresh) = elim (Option-cases (find_timer uid r.timers)) [
  | inl e ↦ ground (arith, e, without-none uid r.timers r.running e owned)
  | inr (id, e) ↦ ground (arith, e, stop_running-without uid id r.timers r.running distinct e owned)
]

-- Schedule, with a time and targets, replaces them by one new timer.
pub running-schedule :
    (now uid after : ℕ) (targets : List Str) (r : Reverter)
    → after ≢ 0
    → length targets ≢ 0
    → IsOrderly r
    → (schedule now uid after targets r).running
      ≡ record { id = r.next_id; unit = uid; due = now + after; targets = targets }
        ∷ without uid r.running
unfolding schedule
running-schedule now uid after targets r h k orderly =
    ground (arith, h, k, cancel-next_id uid r, running-cancel uid r orderly)

pub cancel-IsOrderly : (uid : ℕ) (r : Reverter) → IsOrderly r → IsOrderly (cancel uid r)
cancel-IsOrderly uid r (owned, distinct, fresh) = (
  cancel-IsOwned uid r owned,
  λ u v id h k.
      distinct u v id (ground (arith, h, find_timer-cancel u uid r))
        (ground (arith, k, find_timer-cancel v uid r)),
  λ u id h.
      ground
        (arith, fresh u id (ground (arith, h, find_timer-cancel u uid r)), cancel-next_id uid r),
)

find_timer-schedule :
    (now uid after u : ℕ) (targets : List Str) (r : Reverter)
    → after ≢ 0
    → length targets ≢ 0
    → find_timer u (schedule now uid after targets r).timers
      ≡ (if uid == u then some r.next_id else find_timer u r.timers)
unfolding schedule find_timer
find_timer-schedule now uid after u targets r h k =
    ground (arith, h, k, cancel-next_id uid r, find_timer-cancel u uid r)

schedule-next_id :
    (now uid after : ℕ) (targets : List Str) (r : Reverter)
    → after ≢ 0
    → length targets ≢ 0
    → (schedule now uid after targets r).next_id ≡ suc r.next_id
unfolding schedule
schedule-next_id now uid after targets r h k = ground (arith, h, k, cancel-next_id uid r)

pub schedule-IsOrderly :
    (now uid after : ℕ) (targets : List Str) (r : Reverter)
    → after ≢ 0
    → length targets ≢ 0
    → IsOrderly r
    → IsOrderly (schedule now uid after targets r)
schedule-IsOrderly now uid after targets r some_time some_target (owned, distinct, fresh) = (
  schedule-IsOwned now uid after targets r owned,
  λ u v id h k. ground (
    arith,
    h,
    k,
    find_timer-schedule now uid after u targets r some_time some_target,
    find_timer-schedule now uid after v targets r some_time some_target,
    distinct u v id,
    fresh u id,
    fresh v id,
  ),
  λ u id h. ground (
    arith,
    h,
    find_timer-schedule now uid after u targets r some_time some_target,
    schedule-next_id now uid after targets r some_time some_target,
    fresh u id,
  ),
)
