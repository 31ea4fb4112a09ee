-- ===== src/Server/Tracker.antt =====
-- internal/server/write_tracker.go: the outcome of writes that settle later. The clock is an
-- argument, in nanoseconds; the lock is left out, since a method holds it from its first line to its
-- last. The map is a list of entries with distinct keys.
pub mod Lifecycle
pub mod Matching
pub mod Reported
use apsystems_sunspec.Base.{
  ℕ, ◌+◌, ◌*◌, ◌-◌, ◌^◌, Bool, true, false, not, ◌&&◌, Option, some, none, List, [], ◌∷◌, Str,
  codes, lookup, length, get_elem?, ltb, ◌==◌, if◌then◌else◌,
}
use apsystems_sunspec.Base.Int.{ℤ, pos, ◌+ℤ◌, ltb_ℤ}
use apsystems_sunspec.Base.Word.{u16}
use apsystems_sunspec.Floats.{Floats}
use apsystems_sunspec.Source.Inverter.{Inverter}
use apsystems_sunspec.Source.Protection.{ProtectionParams, no_params}
use apsystems_sunspec.Source.Snapshot.{Snapshot}
use apsystems_sunspec.Sunspec.FreqDroop.{WriteStatus}

abbrev pub write_rslt_in_progress : ℕ
write_rslt_in_progress = 0

abbrev pub write_rslt_completed : ℕ
write_rslt_completed = 1

abbrev pub write_rslt_failed : ℕ
write_rslt_failed = 2

-- Fifteen minutes.
abbrev pub default_write_deadline : ℕ
default_write_deadline = 15 * 60 * 10 ^ 9

pub record TrackerKey : Type 0 where
  pub uid : ℕ
  pub model : ℕ

abbrev pub key_eq : TrackerKey → TrackerKey → Bool
key_eq j k = j.uid == k.uid && j.model == k.model

pub record TrackerEntry (F : Type 0) : Type 0 where
  pub req_counter : ℕ
  pub rslt : ℕ
  pub expected : List (Str × F)
  pub deadline : ℕ

abbrev pub WriteTracker : Type 0 → Type 0
WriteTracker F = List (TrackerKey × TrackerEntry F)

module _ {F : Type 0} where
  unfoldable pub find_entry : TrackerKey → WriteTracker F → Option (TrackerEntry F)
  find_entry k [] = none
  find_entry k ((j, e) ∷ wt) = if key_eq j k then some e else find_entry k wt

  unfoldable pub set_entry : TrackerKey → TrackerEntry F → WriteTracker F → WriteTracker F
  set_entry k e [] = (k, e) ∷ []
  set_entry k e ((j, d) ∷ wt) = if key_eq j k then (k, e) ∷ wt else (j, d) ∷ set_entry k e wt

  abbrev counter_of : Option (TrackerEntry F) → ℕ
  counter_of none = 0
  counter_of (some e) = e.req_counter

  unfoldable pub track : ℕ → TrackerKey → List (Str × F) → WriteTracker F → WriteTracker F
  track now key expected wt =
      set_entry key
        (record {
          req_counter = u16 (counter_of (find_entry key wt) + 1);
          rslt = write_rslt_in_progress;
          expected = expected;
          deadline = now + default_write_deadline;
        })
        wt

  abbrev pub status_of : Option (TrackerEntry F) → WriteStatus
  status_of none = (write_rslt_completed, 0)
  status_of (some e) = (e.rslt, e.req_counter)

  -- Get
  unfoldable pub get_status : WriteTracker F → ℕ → ℕ → WriteStatus
  get_status wt uid model_id = status_of (find_entry (record { uid = uid; model = model_id }) wt)

  -- PruneSettled
  unfoldable pub prune_settled : ℕ → ℤ → WriteTracker F → WriteTracker F
  prune_settled now grace [] = []
  prune_settled now grace ((k, e) ∷ wt) =
      let rest = prune_settled now grace wt in
      if not (e.rslt == write_rslt_in_progress) && ltb_ℤ (pos e.deadline +ℤ grace) (pos now)
      then rest
      else (k, e) ∷ rest

  unfoldable pub unit_id_to_inverter_uid : Snapshot F → ℕ → Option Str
  unit_id_to_inverter_uid snap unit_id =
      if ltb unit_id 2
      then none
      else elim (get_elem? snap.inverters (unit_id - 2)) [ some inv ↦ some inv.uid | none ↦ none ]

module _ (fl : Floats) where
  open fl use {F, lit, lt, sub, abs}

  -- The cases of the switch in protGet.
  unfoldable pub prot_fields : ProtectionParams F → List (Str × F)
  prot_fields p =
      (codes "AB", p.avg_ov)
      ∷ (codes "AC", p.uv_stg2)
      ∷ (codes "AD", p.ov_stg2)
      ∷ (codes "AE", p.uf_slow)
      ∷ (codes "AF", p.of_slow)
      ∷ (codes "AG", p.reconnect_s)
      ∷ (codes "AH", p.v_win_low)
      ∷ (codes "AI", p.v_win_hi)
      ∷ (codes "AJ", p.uf_fast)
      ∷ (codes "AK", p.of_fast)
      ∷ (codes "AQ", p.uv_fast)
      ∷ (codes "AS", p.start_s)
      ∷ (codes "AY", p.ov_stg3)
      ∷ (codes "BB", p.uv2_clr_s)
      ∷ (codes "BC", p.ov2_clr_s)
      ∷ (codes "BD", p.uv3_clr_s)
      ∷ (codes "BE", p.ov3_clr_s)
      ∷ (codes "BH", p.uf1_clr_s)
      ∷ (codes "BI", p.of1_clr_s)
      ∷ (codes "BJ", p.uf2_clr_s)
      ∷ (codes "BK", p.of2_clr_s)
      ∷ (codes "BN", p.reconn_v_low)
      ∷ (codes "BO", p.reconn_v_hi)
      ∷ (codes "BP", p.reconn_f_low)
      ∷ (codes "BQ", p.reconn_f_hi)
      ∷ (codes "CC", p.of_droop_end)
      ∷ (codes "CV", p.of_droop_mode)
      ∷ (codes "DC", p.of_droop_start)
      ∷ (codes "DD", p.of_droop_slope)
      ∷ []

  unfoldable pub prot_get : ProtectionParams F → Str → Option F
  unfolding prot_fields
  prot_get prot code = if prot.has code then lookup code (prot_fields prot) else none

  -- One pair of the map: reported, and within the tolerance of 0.05.
  unfoldable pub matches_one : ProtectionParams F → Str → F → Bool
  matches_one prot code expected = elim (prot_get prot code) [
    | none ↦ false
    | some actual ↦ not (lt (lit 5 2) (abs (sub actual expected)))
  ]

  unfoldable pub matches_each : ProtectionParams F → List (Str × F) → Bool
  matches_each prot [] = true
  matches_each prot ((code, x) ∷ want) =
      if matches_one prot code x then matches_each prot want else false

  unfoldable pub matches_all : ProtectionParams F → List (Str × F) → Bool
  unfolding matches_each
  matches_all prot [] = false
  matches_all prot (w ∷ want) = matches_each prot (w ∷ want)

  -- snap.Protection[uid], the zero value for a missing key.
  unfoldable pub protection_at : Snapshot F → Str → ProtectionParams F
  protection_at snap uid = elim (lookup uid snap.protection) [
    | some p ↦ p
    | none ↦ no_params (lit 0 0)
  ]

  fail_late : ℕ → TrackerEntry F → TrackerEntry F
  fail_late now e = if ltb e.deadline now then record e { rslt = write_rslt_failed } else e

  -- The body of the loop in Reconcile.
  unfoldable pub reconcile_entry : Snapshot F → ℕ → TrackerKey → TrackerEntry F → TrackerEntry F
  unfolding fail_late
  reconcile_entry snap now key e =
      if not (e.rslt == write_rslt_in_progress)
      then e
      else elim (unit_id_to_inverter_uid snap key.uid) [
        | none ↦ fail_late now e
        | some uid ↦
            if matches_all (protection_at snap uid) e.expected
            then record e { rslt = write_rslt_completed }
            else fail_late now e
      ]

  unfoldable pub reconcile : Snapshot F → ℕ → WriteTracker F → WriteTracker F
  unfolding reconcile_entry
  reconcile snap now [] = []
  reconcile snap now ((k, e) ∷ wt) = (k, reconcile_entry snap now k e) ∷ reconcile snap now wt
