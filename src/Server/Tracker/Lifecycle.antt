-- ===== src/Server/Tracker/Lifecycle.antt =====
-- The life of an entry in internal/server/write_tracker.go.
use apsystems_sunspec.Base.{
  ℕ, ◌+◌, ◌≡◌, refl, ◌↔◌, true, some, List, [], ◌∷◌, Str, ◌==◌, if◌then◌else◌, arith, ◌&&◌,
}
use apsystems_sunspec.Base.Word.{u16}
use apsystems_sunspec.Floats.{Floats}
use apsystems_sunspec.Source.Snapshot.{Snapshot}
use apsystems_sunspec.Server.Tracker.{
  TrackerKey, key_eq, TrackerEntry, WriteTracker, find_entry, set_entry, track, get_status,
  status_of, reconcile_entry, reconcile, write_rslt_in_progress, default_write_deadline,
}

pub key_eq_iff : (j k : TrackerKey) → (key_eq j k ≡ true) ↔ (j ≡ k)
key_eq_iff j k = ground arith

pub find-set :
    {F : Type 0} (j k : TrackerKey) (e : TrackerEntry F) (wt : WriteTracker F)
    → find_entry j (set_entry k e wt) ≡ (if key_eq k j then some e else find_entry j wt)
unfolding find_entry set_entry
find-set j k e [] = refl
find-set j k e ((i, d) ∷ wt) =
    ground (arith, key_eq_iff i k, key_eq_iff i j, key_eq_iff k j, find-set j k e wt)

-- Right after a write is tracked, its unit and model report IN_PROGRESS and the next request number,
-- which wraps at 16 bits; every other unit and model reports what it did.
pub get_status-track :
    {F : Type 0} (now : ℕ) (key : TrackerKey) (expected : List (Str × F)) (wt : WriteTracker F)
    (uid model : ℕ)
    → get_status (track now key expected wt) uid model ≡ (
        if key.uid == uid && key.model == model
        then (write_rslt_in_progress, u16 ((get_status wt uid model).1 + 1))
        else get_status wt uid model)
unfolding get_status track
get_status-track now key expected wt uid model = ground (
  arith,
  find-set (record { uid = uid; model = model }) key
      (record {
        req_counter = u16 ((status_of (find_entry key wt)).1 + 1);
        rslt = write_rslt_in_progress;
        expected = expected;
        deadline = now + default_write_deadline;
      })
      wt,
  key_eq_iff key (record { uid = uid; model = model }),
)

module _ (fl : Floats) (snap : Snapshot fl.F) (now : ℕ) where
  open fl use {F}

  pub find-reconcile :
      (k : TrackerKey) (wt : WriteTracker F) (e : TrackerEntry F)
      → find_entry k wt ≡ some e
      → find_entry k (reconcile fl snap now wt) ≡ some (reconcile_entry fl snap now k e)
  unfolding find_entry reconcile
  find-reconcile k [] e h = cc
  find-reconcile k ((j, d) ∷ wt) e h = ground (arith, key_eq_iff j k, find-reconcile k wt e)
