-- ===== src/Server/Reverter/Held.antt =====
-- When the callbacks of internal/server/reverter.go may restore the power of a unit.
use apsystems_sunspec.Base.{
  ℕ, suc, ◌+◌, ◌≤◌, ◌<◌, ◌≡◌, ◌≢◌, refl, Bool, false, List, [], ◌∷◌, Str, All, All-imp, arith, ◌==◌,
  ◌||◌, length, if_holds, inl, inr, Option-cases,
}
use apsystems_sunspec.Source.Database.{Database}
use apsystems_sunspec.Server.Reverter.{
  Timer, Reverter, find_timer, stop_running, stop_each, cancel, schedule, stop,
}
use apsystems_sunspec.Server.Reverter.Timers.{IsOwned, cancel-IsOwned, find_timer-cancel}
use apsystems_sunspec.Server.Reverter.Fire.{
  Pick, here, there, expire, fire_locked, Runtime, Step, waited, scheduled, cancelled, stopped,
  expired, locked, restored, returned, written, Steps, start, later,
}

-- The picked element and the others have what all have.
All-Pick :
    {A : Type 0} (P : A → Type 0) {a : A} {xs rest : List A}
    → Pick a xs rest
    → All P xs
    → P a × All P rest
All-Pick P here h = (h.0, h.1)
All-Pick P (there k) h = let (p, r) = All-Pick P k h.1 in (p, (h.0, r))

stop_running-All :
    (P : Timer → Type 0) (id : ℕ) (ts : List Timer) → All P ts → All P (stop_running id ts)
unfolding stop_running
stop_running-All P id [] h = tt
stop_running-All P id (t ∷ ts) h =
    let rest = stop_running-All P id ts h.1 in if_holds (All P) (t.id == id) _ _ rest (h.0, rest)

cancel-All :
    (P : Timer → Type 0) (uid : ℕ) (r : Reverter) → All P r.running → All P (cancel uid r).running
unfolding cancel
cancel-All P uid r h = elim (Option-cases (find_timer uid r.timers)) [
  | inl e ↦ rw (cancel, e) h
  | inr (id, e) ↦ rw (cancel, e) (stop_running-All P id r.running h)
]

stop_each-All :
    (P : Timer → Type 0) (m : List (ℕ × ℕ)) (ts : List Timer) → All P ts → All P (stop_each m ts)
unfolding stop_each
stop_each-All P [] ts h = h
stop_each-All P ((uid, id) ∷ m) ts h = stop_each-All P m _ (stop_running-All P id ts h)

schedule-All :
    (P : Timer → Type 0) (now uid after : ℕ) (targets : List Str) (r : Reverter)
    → ((id : ℕ) → P (record { id = id; unit = uid; due = now + after; targets = targets }))
    → All P r.running
    → All P (schedule now uid after targets r).running
unfolding schedule
schedule-All P now uid after targets r new h =
    if_holds (λ (x : Reverter). All P x.running) (after == 0 || length targets == 0) _ _
      (cancel-All P uid r h) (new _, cancel-All P uid r h)

-- What Schedule, Cancel and Stop leave of the callbacks.
cancel-firing : (uid : ℕ) (r : Reverter) → (cancel uid r).firing ≡ r.firing
unfolding cancel
cancel-firing uid r = elim (Option-cases (find_timer uid r.timers)) [
  | inl e ↦ rw (cancel, e) refl
  | inr (id, e) ↦ rw (cancel, e) refl
]

schedule-firing :
    (now uid after : ℕ) (targets : List Str) (r : Reverter)
    → (schedule now uid after targets r).firing ≡ r.firing
unfolding schedule
schedule-firing now uid after targets r =
    if_holds (λ (x : Reverter). x.firing ≡ r.firing) (after == 0 || length targets == 0) _ _
      (cancel-firing uid r) (cancel-firing uid r)

module _ {F : Type 0} (d : Database F) where
  -- No callback of the unit is under way, before its critical section or after.
  abbrev pub IsIdle : ℕ → Runtime d → Type 0
  IsIdle uid s = All (λ t. t.unit ≢ uid) s.reverter.firing × All (λ c. c.unit ≢ uid) s.restoring

  -- The unit is left alone until `due`.
  pub record IsHeld (uid due : ℕ) (s : Runtime d) : Type 0 where
    pub not_before : All (λ t. t.unit ≡ uid → due ≤ t.due) s.reverter.running
    pub idle : s.now < due → IsIdle uid s

  Step-IsHeld :
      (may : ℕ → Bool) (uid due : ℕ) (s t : Runtime d)
      → may uid ≡ false
      → Step d may s t
      → IsHeld uid due s
      → IsHeld uid due t
  unfolding stop expire fire_locked
  Step-IsHeld may uid due s t never (waited n) h = record {
    not_before = h.not_before;
    idle = λ early. h.idle (omega (arith, early));
  }
  Step-IsHeld may uid due s t never (scheduled v after targets ok) h = record {
    not_before =
        schedule-All (λ x. x.unit ≡ uid → due ≤ x.due) s.now v after targets s.reverter
          (λ id e. absurd (ground (arith, e, ok, never))) h.not_before;
    idle = λ early. rw (schedule-firing s.now v after targets s.reverter) (h.idle early);
  }
  Step-IsHeld may uid due s t never (cancelled v) h = record {
    not_before = cancel-All (λ x. x.unit ≡ uid → due ≤ x.due) v s.reverter h.not_before;
    idle = λ early. rw (cancel-firing v s.reverter) (h.idle early);
  }
  Step-IsHeld may uid due s t never stopped h = record {
    not_before = stop_each-All (λ x. x.unit ≡ uid → due ≤ x.due) s.reverter.timers _ h.not_before;
    idle = h.idle;
  }
  Step-IsHeld may uid due s t never (expired pick reached) h =
      let (p, r) = All-Pick (λ x. x.unit ≡ uid → due ≤ x.due) pick h.not_before in
      record {
        not_before = r;
        idle = λ early.
            let (f, c) = h.idle early in
            (((λ e. absurd (omega (arith, p e, reached, early))), f), c);
      }
  Step-IsHeld may uid due s t never (locked pick) h = record {
    not_before = h.not_before;
    idle = λ early.
        let (f, c) = h.idle early in
        let (p, r) = All-Pick (λ x. x.unit ≢ uid) pick f in (r, (p, c));
  }
  Step-IsHeld may uid due s t never (restored pick) h = record {
    not_before = h.not_before;
    idle = λ early.
        let (p, r) = All-Pick (λ c. c.unit ≢ uid) pick (h.idle early).1 in
        ((h.idle early).0, (p, r));
  }
  Step-IsHeld may uid due s t never (returned pick) h = record {
    not_before = h.not_before;
    idle = λ early. ((h.idle early).0, (All-Pick (λ c. c.unit ≢ uid) pick (h.idle early).1).1);
  }
  Step-IsHeld may uid due s t never (written db') h = record {
    not_before = h.not_before;
    idle = h.idle;
  }

  pub Steps-IsHeld :
      (may : ℕ → Bool) (uid due : ℕ) (s t : Runtime d)
      → may uid ≡ false
      → Steps d may s t
      → IsHeld uid due s
      → IsHeld uid due t
  Steps-IsHeld may uid due s t never start h = h
  Steps-IsHeld may uid due s t never (later {t = m} steps step) h =
      Step-IsHeld may uid due m t never step (Steps-IsHeld may uid due s m never steps h)

  -- Where every running timer is current, none is left for a unit that is cancelled.
  cancel-running :
      (uid : ℕ) (r : Reverter) → IsOwned r → All (λ t. t.unit ≢ uid) (cancel uid r).running
  cancel-running uid r owned =
      All-imp _ _ (cancel uid r).running
        (λ t h e. ground (arith, h, e, find_timer-cancel t.unit uid r)) (cancel-IsOwned uid r owned)

  cancel-IsHeld :
      (uid due : ℕ) (s : Runtime d)
      → IsOwned s.reverter
      → IsIdle uid s
      → IsHeld uid due (record s { reverter = cancel uid s.reverter })
  cancel-IsHeld uid due s owned still = record {
    not_before =
        All-imp _ _ (cancel uid s.reverter).running (λ t h e. absurd (h e))
          (cancel-running uid s.reverter owned);
    idle = λ early. rw (cancel-firing uid s.reverter) still;
  }

  schedule-IsHeld :
      (uid after : ℕ) (targets : List Str) (s : Runtime d)
      → IsOwned s.reverter
      → IsIdle uid s
      → IsHeld uid
          (s.now + after)
          (record s { reverter = schedule s.now uid after targets s.reverter })
  unfolding schedule
  schedule-IsHeld uid after targets s owned still =
      let kept = (cancel-IsHeld uid (s.now + after) s owned still).not_before in
      record {
        not_before =
            if_holds (λ (x : Reverter). All (λ t. t.unit ≡ uid → s.now + after ≤ t.due) x.running)
              (after == 0 || length targets == 0) _ _ kept ((λ e. omega arith), kept);
        idle = λ early. rw (schedule-firing s.now uid after targets s.reverter) still;
      }

  -- When Schedule is called for a unit while every running timer is its unit's current one, and no
  -- callback of the unit is under way, then, whatever steps follow in whatever order without another
  -- Schedule for that unit, none is under way before the time given has passed.
  pub IsIdle-schedule :
      (may : ℕ → Bool) (uid after : ℕ) (targets : List Str) (s t : Runtime d)
      → IsOwned s.reverter
      → IsIdle uid s
      → may uid ≡ false
      → Steps d may (record s { reverter = schedule s.now uid after targets s.reverter }) t
      → t.now < s.now + after
      → IsIdle uid t
  IsIdle-schedule may uid after targets s t owned still never steps early =
      (Steps-IsHeld may uid (s.now + after) _ t never steps
          (schedule-IsHeld uid after targets s owned still)).idle
        early

  -- When Cancel is called for a unit while every running timer is its unit's current one, and no
  -- callback of the unit is under way, then, whatever steps follow in whatever order without a
  -- Schedule for that unit, none is under way ever after.
  pub IsIdle-cancel :
      (may : ℕ → Bool) (uid : ℕ) (s t : Runtime d)
      → IsOwned s.reverter
      → IsIdle uid s
      → may uid ≡ false
      → Steps d may (record s { reverter = cancel uid s.reverter }) t
      → IsIdle uid t
  IsIdle-cancel may uid s t owned still never steps =
      (Steps-IsHeld may uid (suc t.now) _ t never steps
          (cancel-IsHeld uid (suc t.now) s owned still)).idle
        (omega arith)
