-- ===== src/Server/Refresh.antt =====
-- buildBanks, SetSnapshot and refresh of internal/server/server.go.
pub mod Units
pub mod Outcome
use apsystems_sunspec.Base.{
  ℕ, zero, suc, ◌+◌, Bool, Option, some, none, List, [], ◌∷◌, Str, lookup, if◌then◌else◌, ◌==◌,
}
use apsystems_sunspec.Base.Int.{ℤ}
use apsystems_sunspec.Base.Word.{u8}
use apsystems_sunspec.Floats.{Floats}
use apsystems_sunspec.Source.Inverter.{Inverter, NameplateTable}
use apsystems_sunspec.Source.Protection.{ProtectionParams}
use apsystems_sunspec.Source.Snapshot.{Snapshot}
use apsystems_sunspec.Sunspec.Bank.{Bank}
use apsystems_sunspec.Sunspec.Options.{Options}
use apsystems_sunspec.Sunspec.Encoder.{encode}
use apsystems_sunspec.Sunspec.PerInverter.{encode_per_inverter}
use apsystems_sunspec.Server.Tracker.{
  WriteTracker, get_status, prune_settled, protection_at, reconcile,
}
use apsystems_sunspec.Server.Handler.{Banks}

-- banks[uid] = &b
unfoldable pub set_bank : ℕ → Bank → Banks → Banks
set_bank uid b [] = (uid, b) ∷ []
set_bank uid b ((u, c) ∷ m) = if u == uid then (uid, b) ∷ m else (u, c) ∷ set_bank uid b m

module _ (fl : Floats) (tbl : NameplateTable) where
  open fl use {F}

  -- The bank of the inverter at the index `i`.
  unfoldable pub bank_of_inverter : Snapshot F → Options → ℕ → Inverter F → Bank
  bank_of_inverter snap opt i inv =
      encode_per_inverter fl tbl inv (u8 (2 + i)) opt (protection_at fl snap inv.uid)

  -- The loop over the inverters; a unit identifier is a uint8.
  unfoldable pub add_banks : Snapshot F → Options → ℕ → List (Inverter F) → Banks → Banks
  add_banks snap opt i [] m = m
  add_banks snap opt i (inv ∷ invs) m =
      add_banks snap opt (i + 1) invs (set_bank (u8 (2 + i)) (bank_of_inverter snap opt i inv) m)

  -- The options that carry the tracker's Get.
  abbrev pub tracked : Options → WriteTracker F → Options
  tracked opt wt = record opt { write_rslt = some (get_status wt) }

  unfoldable pub build_banks : Snapshot F → Options → WriteTracker F → Banks
  unfolding add_banks
  build_banks snap opt wt =
      let opt' = tracked opt wt in
      add_banks snap opt' 0 snap.inverters ((1, encode fl tbl snap opt') ∷ [])

  -- What a refresh replaces.
  pub record Published : Type 0 where
    pub tracker : WriteTracker F
    pub banks : Option Banks
    pub snap : Option (Snapshot F)

  publish : Snapshot F → Options → WriteTracker F → Published
  publish snap opt wt = record {
    tracker = wt;
    banks = some (build_banks snap opt wt);
    snap = some snap;
  }

  -- A refresh with the provider's result, none for its error. The clock is read twice, once by
  -- Reconcile and once by PruneSettled.
  unfoldable pub refresh : Option (Snapshot F) → Options → ℤ → ℕ → ℕ → Published → Published
  unfolding publish
  refresh none opt interval now later p = p
  refresh (some snap) opt interval now later p =
      publish snap opt (prune_settled later interval (reconcile fl snap now p.tracker))

  unfoldable pub set_snapshot : Snapshot F → Options → ℕ → Published → Published
  unfolding publish
  set_snapshot snap opt now p = publish snap opt (reconcile fl snap now p.tracker)
