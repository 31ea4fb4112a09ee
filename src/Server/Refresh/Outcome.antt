-- ===== src/Server/Refresh/Outcome.antt =====
-- What a refresh of internal/server/server.go publishes of a write that waits for its outcome.
use apsystems_sunspec.Base.{
  ℕ, ◌≡◌, refl, ◌∙◌, Bool, true, false, not, ◌&&◌, Option, some, none, List, [], ◌∷◌, ltb, ◌==◌,
  if◌then◌else◌, arith, Str,
}
use apsystems_sunspec.Base.Int.{ℤ, pos, ◌+ℤ◌, ltb_ℤ}
use apsystems_sunspec.Floats.{Floats}
use apsystems_sunspec.Source.Inverter.{NameplateTable}
use apsystems_sunspec.Source.Snapshot.{Snapshot}
use apsystems_sunspec.Sunspec.FreqDroop.{WriteStatus}
use apsystems_sunspec.Sunspec.Options.{Options}
use apsystems_sunspec.Server.Tracker.{
  TrackerKey, TrackerEntry, WriteTracker, find_entry, status_of, set_entry, track, get_status,
  prune_settled, unit_id_to_inverter_uid, matches_all, protection_at, reconcile_entry, reconcile,
  write_rslt_in_progress, write_rslt_completed, write_rslt_failed,
}
use apsystems_sunspec.Server.Tracker.Lifecycle.{key_eq_iff, find-set, find-reconcile}
use apsystems_sunspec.Server.Refresh.{Published, refresh}

module _ {F : Type 0} where
  -- The keys of the map are distinct.
  abbrev pub IsKeyed : WriteTracker F → Type 0
  IsKeyed [] = Unit
  IsKeyed ((k, e) ∷ wt) = (find_entry k wt ≡ none) × IsKeyed wt

  -- PruneSettled drops an entry.
  abbrev is_pruned : ℕ → ℤ → TrackerEntry F → Bool
  is_pruned now grace e =
      not (e.rslt == write_rslt_in_progress) && ltb_ℤ (pos e.deadline +ℤ grace) (pos now)

  find-prune_settled-none :
      (now : ℕ) (grace : ℤ) (k : TrackerKey) (wt : WriteTracker F)
      → find_entry k wt ≡ none
      → find_entry k (prune_settled now grace wt) ≡ none
  unfolding find_entry prune_settled
  find-prune_settled-none now grace k [] h = refl
  find-prune_settled-none now grace k ((j, d) ∷ wt) h =
      ground (arith, h, find-prune_settled-none now grace k wt)

  find-prune_settled :
      (now : ℕ) (grace : ℤ) (k : TrackerKey) (wt : WriteTracker F) (e : TrackerEntry F)
      → IsKeyed wt
      → find_entry k wt ≡ some e
      → find_entry k (prune_settled now grace wt) ≡ (if is_pruned now grace e then none else some e)
  unfolding find_entry prune_settled
  find-prune_settled now grace k [] e keyed h = absurd (ground (arith, h))
  find-prune_settled now grace k ((j, d) ∷ wt) e keyed h = ground (
    arith,
    h,
    keyed,
    key_eq_iff j k,
    find-prune_settled now grace k wt e keyed.1,
    find-prune_settled-none now grace k wt,
  )

  set_entry-IsKeyed :
      (k : TrackerKey) (e : TrackerEntry F) (wt : WriteTracker F)
      → IsKeyed wt
      → IsKeyed (set_entry k e wt)
  unfolding find_entry set_entry
  set_entry-IsKeyed k e [] keyed = (refl, tt)
  set_entry-IsKeyed k e ((j, d) ∷ wt) keyed = ground (
    arith,
    keyed,
    key_eq_iff j k,
    key_eq_iff k j,
    find-set j k e wt,
    set_entry-IsKeyed k e wt keyed.1,
  )

  track-IsKeyed :
      (now : ℕ) (k : TrackerKey) (expected : List (Str × F)) (wt : WriteTracker F)
      → IsKeyed wt
      → IsKeyed (track now k expected wt)
  unfolding track
  track-IsKeyed now k expected wt keyed = set_entry-IsKeyed k _ wt keyed

  prune_settled-IsKeyed :
      (now : ℕ) (grace : ℤ) (wt : WriteTracker F)
      → IsKeyed wt
      → IsKeyed (prune_settled now grace wt)
  unfolding prune_settled
  prune_settled-IsKeyed now grace [] keyed = tt
  prune_settled-IsKeyed now grace ((j, d) ∷ wt) keyed = ground (
    arith,
    keyed,
    prune_settled-IsKeyed now grace wt keyed.1,
    find-prune_settled-none now grace j wt keyed.0,
  )

  status_of-if :
      (b : Bool) (e : TrackerEntry F)
      → status_of (if b then none else some e)
        ≡ (if b then (write_rslt_completed, 0) else (e.rslt, e.req_counter))
  status_of-if true e = refl
  status_of-if false e = refl

module _ (fl : Floats) (snap : Snapshot fl.F) where
  open fl use {F}

  find-reconcile-none :
      (now : ℕ) (k : TrackerKey) (wt : WriteTracker F)
      → find_entry k wt ≡ none
      → find_entry k (reconcile fl snap now wt) ≡ none
  unfolding find_entry reconcile
  find-reconcile-none now k [] h = refl
  find-reconcile-none now k ((j, d) ∷ wt) h = ground (arith, h, find-reconcile-none now k wt)

  reconcile-IsKeyed :
      (now : ℕ) (wt : WriteTracker F) → IsKeyed wt → IsKeyed (reconcile fl snap now wt)
  unfolding reconcile
  reconcile-IsKeyed now [] keyed = tt
  reconcile-IsKeyed now ((j, d) ∷ wt) keyed =
      (find-reconcile-none now j wt keyed.0, reconcile-IsKeyed now wt keyed.1)

  -- Whether the snapshot shows what a write asked for.
  abbrev pub has_landed : TrackerKey → TrackerEntry F → Bool
  has_landed k e = elim (unit_id_to_inverter_uid snap k.uid) [
    | none ↦ false
    | some uid ↦ matches_all fl (protection_at fl snap uid) e.expected
  ]

  -- What a client may conclude of a write: it landed, it is late, or its time is over.
  abbrev pub outcome : Bool → Bool → Bool → ℕ → WriteStatus
  outcome false false over counter = (write_rslt_in_progress, counter)
  outcome true late false counter = (write_rslt_completed, counter)
  outcome false true false counter = (write_rslt_failed, counter)
  outcome _ _ true counter = (write_rslt_completed, 0)

  reconcile_entry-outcome :
      (now later : ℕ) (interval : ℤ) (k : TrackerKey) (e : TrackerEntry F)
      → e.rslt ≡ write_rslt_in_progress
      → let e' = reconcile_entry fl snap now k e in
        (if is_pruned later interval e'
          then (write_rslt_completed, 0)
          else (e'.rslt, e'.req_counter))
        ≡ outcome
            (has_landed k e)
            (ltb e.deadline now)
            (ltb_ℤ (pos e.deadline +ℤ interval) (pos later))
            e.req_counter
  unfolding reconcile_entry
  reconcile_entry-outcome now later interval k e pending = ground arith

module _ (fl : Floats) (tbl : NameplateTable) where
  open fl use {F}

  -- A refresh keeps the tracker's keys distinct, whether the provider returns a snapshot or fails.
  pub refresh-IsKeyed :
      (result : Option (Snapshot F)) (opt : Options) (interval : ℤ) (now later : ℕ)
      (p : Published fl tbl)
      → IsKeyed p.tracker
      → IsKeyed (refresh fl tbl result opt interval now later p).tracker
  unfolding refresh
  refresh-IsKeyed none opt interval now later p keyed = keyed
  refresh-IsKeyed (some s) opt interval now later p keyed =
      prune_settled-IsKeyed later interval _ (reconcile-IsKeyed fl s now p.tracker keyed)

  -- From a tracker with distinct keys, a refresh publishes of a write in progress: COMPLETED if it
  -- has landed, IN_PROGRESS if it has not and its deadline is not over, FAILED if it is; but once a
  -- whole interval has passed since the deadline, a settled write is forgotten in the same refresh,
  -- and reads as COMPLETED with the request number 0, failed or not.
  pub get_status-refresh :
      (snap : Snapshot F) (opt : Options) (interval : ℤ) (now later uid model : ℕ)
      (p : Published fl tbl) (e : TrackerEntry F)
      → IsKeyed p.tracker
      → let k : TrackerKey = record { uid = uid; model = model } in
        find_entry k p.tracker ≡ some e
        → e.rslt ≡ write_rslt_in_progress
        → get_status (refresh fl tbl (some snap) opt interval now later p).tracker uid model
          ≡ outcome fl snap
              (has_landed fl snap k e)
              (ltb e.deadline now)
              (ltb_ℤ (pos e.deadline +ℤ interval) (pos later))
              e.req_counter
  unfolding refresh get_status
  get_status-refresh snap opt interval now later uid model p e keyed there pending =
      let k : TrackerKey = record { uid = uid; model = model } in
      let left =
        find-prune_settled later interval k (reconcile fl snap now p.tracker) _
          (reconcile-IsKeyed fl snap now p.tracker keyed)
          (find-reconcile fl snap now k p.tracker e there) in
      rw left (
        status_of-if (is_pruned later interval (reconcile_entry fl snap now k e))
          (reconcile_entry fl snap now k e)
        ∙ reconcile_entry-outcome fl snap now later interval k e pending)
