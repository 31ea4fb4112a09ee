-- ===== src/Server/Reverter/Timers.antt =====
-- Which timers run, internal/server/reverter.go.
use apsystems_sunspec.Base.{
  ℕ, ◌≡◌, false, not, ◌||◌, some, none, List, [], ◌∷◌, Str, length, ◌==◌, if◌then◌else◌, arith, All,
  Option-cases, Bool-cases, inl, inr,
}
use apsystems_sunspec.Server.Reverter.{
  Timer, Reverter, find_timer, delete_timer, stop_running, cancel, schedule, pending,
}

pub find_timer-delete :
    (u uid : ℕ) (m : List (ℕ × ℕ))
    → find_timer u (delete_timer uid m) ≡ (if uid == u then none else find_timer u m)
unfolding find_timer delete_timer
find_timer-delete u uid [] = ground arith
find_timer-delete u uid ((v, id) ∷ m) = ground (arith, find_timer-delete u uid m)

pub find_timer-cancel :
    (u uid : ℕ) (r : Reverter)
    → find_timer u (cancel uid r).timers ≡ (if uid == u then none else find_timer u r.timers)
unfolding cancel
find_timer-cancel u uid r = ground (arith, find_timer-delete u uid r.timers)

pub pending-cancel :
    (uid u : ℕ) (r : Reverter)
    → pending u (cancel uid r) ≡ (if uid == u then false else pending u r)
unfolding pending
pending-cancel uid u r = ground (arith, find_timer-cancel u uid r)

-- Scheduling replaces the timer of the unit, or removes it where the time is 0 or no inverter is
-- concerned; the other units keep theirs.
pub pending-schedule :
    (now uid after u : ℕ) (targets : List Str) (r : Reverter)
    → pending u (schedule now uid after targets r)
      ≡ (if uid == u then not (after == 0 || length targets == 0) else pending u r)
unfolding pending schedule find_timer
pending-schedule now uid after u targets r = ground (arith, find_timer-cancel u uid r)

-- A running timer is the one that the map has for its unit.
abbrev pub IsCurrent : List (ℕ × ℕ) → Timer → Type 0
IsCurrent m t = find_timer t.unit m ≡ some t.id

-- Every running timer is current, so each unit has at most one.
abbrev pub IsOwned : Reverter → Type 0
IsOwned r = All (IsCurrent r.timers) r.running

stop_running-IsCurrent :
    (uid id : ℕ) (m : List (ℕ × ℕ)) (ts : List Timer)
    → find_timer uid m ≡ some id
    → All (IsCurrent m) ts
    → All (IsCurrent (delete_timer uid m)) (stop_running id ts)
unfolding stop_running
stop_running-IsCurrent uid id m [] here all = tt
stop_running-IsCurrent uid id m (t ∷ ts) here all = ground (
  arith,
  here,
  all,
  find_timer-delete t.unit uid m,
  stop_running-IsCurrent uid id m ts here all.1,
)

pub cancel-IsOwned : (uid : ℕ) (r : Reverter) → IsOwned r → IsOwned (cancel uid r)
unfolding cancel
cancel-IsOwned uid r owned = elim (Option-cases (find_timer uid r.timers)) [
  | inl e ↦ ground (arith, e, owned)
  | inr (id, e) ↦ ground (arith, e, stop_running-IsCurrent uid id r.timers r.running e owned)
]

-- A new entry for a unit that has none leaves the running timers current.
IsCurrent-cons :
    (uid id : ℕ) (m : List (ℕ × ℕ)) (ts : List Timer)
    → find_timer uid m ≡ none
    → All (IsCurrent m) ts
    → All (IsCurrent ((uid, id) ∷ m)) ts
unfolding find_timer
IsCurrent-cons uid id m [] fresh all = tt
IsCurrent-cons uid id m (t ∷ ts) fresh all =
    (ground (arith, fresh, all.0), IsCurrent-cons uid id m ts fresh all.1)

schedule-armed :
    (now uid after : ℕ) (targets : List Str) (r : Reverter)
    → (after == 0 || length targets == 0) ≡ false
    → IsOwned (cancel uid r)
    → IsOwned (schedule now uid after targets r)
unfolding schedule find_timer
schedule-armed now uid after targets r e kept =
    rw e (ground arith, IsCurrent-cons uid _ _ _ (ground (arith, find_timer-cancel uid uid r)) kept)

-- Scheduling keeps the invariant that every running timer is the current timer of its unit.
pub schedule-IsOwned :
    (now uid after : ℕ) (targets : List Str) (r : Reverter)
    → IsOwned r
    → IsOwned (schedule now uid after targets r)
unfolding schedule
schedule-IsOwned now uid after targets r owned =
    let kept = cancel-IsOwned uid r owned in
    elim (Bool-cases (after == 0 || length targets == 0)) [
      | inl e ↦ ground (arith, e, kept)
      | inr e ↦ schedule-armed now uid after targets r e kept
    ]
