-- ===== src/Server/Reverter/Stopped.antt =====
-- What Stop of internal/server/reverter.go leaves to fire.
use apsystems_sunspec.Base.{ℕ, suc, ◌≡◌, refl, Bool, false, List, [], ◌∷◌, All, arith}
use apsystems_sunspec.Source.Database.{Database}
use apsystems_sunspec.Server.Reverter.{Timer, Reverter, find_timer, stop_running, stop_each, stop}
use apsystems_sunspec.Server.Reverter.Timers.{IsCurrent, IsOwned}
use apsystems_sunspec.Server.Reverter.Fire.{Runtime, Steps}
use apsystems_sunspec.Server.Reverter.Held.{IsIdle, Steps-IsHeld}

-- Once the timer of the first entry is stopped, the others are current for the other entries.
stop_running-entry :
    (uid id : ℕ) (m : List (ℕ × ℕ)) (ts : List Timer)
    → All (IsCurrent ((uid, id) ∷ m)) ts
    → All (IsCurrent m) (stop_running id ts)
unfolding stop_running find_timer
stop_running-entry uid id m [] h = tt
stop_running-entry uid id m (t ∷ ts) h = ground (arith, h.0, stop_running-entry uid id m ts h.1)

stop_each-current :
    (m : List (ℕ × ℕ)) (ts : List Timer) → All (IsCurrent m) ts → stop_each m ts ≡ []
unfolding stop_each find_timer
stop_each-current [] [] h = refl
stop_each-current [] (t ∷ ts) h = cc (h.0)
stop_each-current ((uid, id) ∷ m) ts h =
    stop_each-current m (stop_running id ts) (stop_running-entry uid id m ts h)

running-stop : (r : Reverter) → IsOwned r → (stop r).running ≡ []
unfolding stop
running-stop r owned = stop_each-current r.timers r.running owned

module _ {F : Type 0} (d : Database F) where
  -- When Stop is called while every running timer is its unit's current one, no timer is left
  -- running; and a unit of which no callback is under way has none ever after, whatever steps follow
  -- in whatever order without a Schedule for that unit.
  pub IsIdle-stop :
      (may : ℕ → Bool) (uid : ℕ) (s t : Runtime d)
      → IsOwned s.reverter
      → IsIdle d uid s
      → may uid ≡ false
      → Steps d may (record s { reverter = stop s.reverter }) t
      → ((stop s.reverter).running ≡ []) × IsIdle d uid t
  unfolding stop
  IsIdle-stop may uid s t owned still never steps =
      let none_left = running-stop s.reverter owned in
      (
        none_left,
        (Steps-IsHeld d may uid (suc t.now) _ t never steps
              (record { not_before = rw none_left tt; idle = λ early. still })).idle
            (omega arith),
      )
