-- ===== src/Server/Reverter/Fire.antt =====
-- The runtime around internal/server/reverter.go: timers that expire, and their callbacks, which run
-- beside the handlers. A step is one critical section, one statement, or the passing of time.
use apsystems_sunspec.Base.{ℕ, ◌+◌, ◌≤◌, ◌≡◌, Bool, true, List, [], ◌∷◌, Str}
use apsystems_sunspec.Source.Database.{Database}
use apsystems_sunspec.Source.Writer.{restore_full_power}
use apsystems_sunspec.Server.Reverter.{Timer, Reverter, delete_timer, cancel, schedule, stop}

-- A callback that has left the critical section, with the targets that are left.
pub record Restoring : Type 0 where
  pub unit : ℕ
  pub targets : List Str

-- An element of a list, and the others.
pub data Pick {A : Type 0} (a : A) : List A → List A → Type 0 where
  here : {rest : List A} → Pick a (a ∷ rest) rest
  there : {b : A} {xs rest : List A} → Pick a xs rest → Pick a (b ∷ xs) (b ∷ rest)

-- The runtime starts the callback of a timer.
unfoldable pub expire : Timer → List Timer → Reverter → Reverter
expire t others r = record r { running = others; firing = t ∷ r.firing }

-- The critical section of fire.
unfoldable pub fire_locked : Timer → List Timer → Reverter → Reverter
fire_locked t others r = record r { timers = delete_timer t.unit r.timers; firing = others }

module _ {F : Type 0} (d : Database F) where
  open d use {Db}

  -- One round of the loop of fire; its error is logged.
  unfoldable pub restore_one : Str → Db → Db
  restore_one target db = (restore_full_power d target db).1

  -- The loop of fire.
  unfoldable pub restore_each : List Str → Db → Db
  restore_each [] db = db
  restore_each (target ∷ targets) db = restore_each targets (restore_one target db)

  pub record Runtime : Type 0 where
    pub now : ℕ
    pub reverter : Reverter
    pub restoring : List Restoring
    pub db : Db

  -- `may` are the units for which a handler calls Schedule.
  pub data Step (may : ℕ → Bool) (s : Runtime) : Runtime → Type 0 where
    waited : (n : ℕ) → Step may s (record s { now = s.now + n })
    scheduled :
        (uid after : ℕ) (targets : List Str)
        → may uid ≡ true
        → Step may s (record s { reverter = schedule s.now uid after targets s.reverter })
    cancelled : (uid : ℕ) → Step may s (record s { reverter = cancel uid s.reverter })
    stopped : Step may s (record s { reverter = stop s.reverter })
    expired :
        {t : Timer} {others : List Timer}
        → Pick t s.reverter.running others
        → t.due ≤ s.now
        → Step may s (record s { reverter = expire t others s.reverter })
    locked :
        {t : Timer} {others : List Timer}
        → Pick t s.reverter.firing others
        → Step may s (record s {
          reverter = fire_locked t others s.reverter;
          restoring = record { unit = t.unit; targets = t.targets } ∷ s.restoring;
        })
    restored :
        {uid : ℕ} {target : Str} {targets : List Str} {others : List Restoring}
        → Pick (record { unit = uid; targets = target ∷ targets }) s.restoring others
        → Step may s (record s {
          restoring = record { unit = uid; targets = targets } ∷ others;
          db = restore_one target s.db;
        })
    returned :
        {uid : ℕ} {others : List Restoring}
        → Pick (record { unit = uid; targets = [] }) s.restoring others
        → Step may s (record s { restoring = others })
    -- A handler's statement.
    written : (db' : Db) → Step may s (record s { db = db' })

  pub data Steps (may : ℕ → Bool) (s : Runtime) : Runtime → Type 0 where
    start : Steps may s s
    later : {t u : Runtime} → Steps may s t → Step may t u → Steps may s u
