-- ===== src/Sunspec/Vendor.antt =====
-- internal/sunspec/vendor.go: Model 64202, the APsystems extras.
use apsystems_sunspec.Base.{
  ℕ, ◌+◌, ◌*◌, ◌<◌, ◌≡◌, refl, inl, inr, List, [], ◌∷◌, ◌++◌, if◌then◌else◌, length, ◌==◌, arith,
  Bool-cases,
}
use apsystems_sunspec.Base.Word.{u16}
use apsystems_sunspec.Source.Inverter.{Inverter, NameplateTable, panel_count, nameplate_w}
use apsystems_sunspec.Source.Snapshot.{Snapshot}
use apsystems_sunspec.Sunspec.Bank.{acc32, put_string}
use apsystems_sunspec.Sunspec.Nameplate.{clamped_u16}
use apsystems_sunspec.Sunspec.Chain.{Layout, HasLayout, HasLayout-nil, HasLayout-model}

abbrev pub vendor_model_id : ℕ
vendor_model_id = 64202

abbrev pub vendor_fixed_block_len : ℕ
vendor_fixed_block_len = 16

abbrev pub vendor_per_inverter_len : ℕ
vendor_per_inverter_len = 10

module _ {F : Type 0} (tbl : NameplateTable) where
  -- A row of the per-inverter block, for the inverter at the index `i`.
  vendor_row : ℕ → Inverter F → List ℕ
  vendor_row i inv =
      u16 (i + 1)
      ∷ clamped_u16 inv.signal_strength
      ∷ clamped_u16 inv.limited_power_w
      ∷ clamped_u16 inv.phase
      ∷ clamped_u16 inv.model
      ∷ clamped_u16 inv.software_ver
      ∷ panel_count inv
      ∷ clamped_u16 (nameplate_w tbl inv)
      ∷ (if inv.online then 1 else 0)
      ∷ 0
      ∷ []

  unfoldable pub vendor_rows : ℕ → List (Inverter F) → List ℕ
  unfolding vendor_row
  vendor_rows i [] = []
  vendor_rows i (inv ∷ invs) = vendor_row i inv ++ vendor_rows (i + 1) invs

  vendor_fixed : Snapshot F → List ℕ
  vendor_fixed s =
      clamped_u16 s.polling_interval ∷ put_string s.firmware 8
      ++ acc32 s.today_energy_wh
      ++ acc32 s.month_energy_wh
      ++ acc32 s.year_energy_wh
      ++ u16 (length s.inverters) ∷ []

  unfoldable pub emit_vendor : Snapshot F → List ℕ
  unfolding vendor_fixed
  emit_vendor s =
      if length s.inverters == 0
      then []
      else (vendor_model_id
            ∷ u16 (vendor_fixed_block_len + vendor_per_inverter_len * u16 (length s.inverters))
            ∷ vendor_fixed s
          ++ vendor_rows 0 s.inverters)

  length-vendor_rows :
      (i : ℕ) (invs : List (Inverter F))
      → length (vendor_rows i invs) ≡ vendor_per_inverter_len * length invs
  unfolding vendor_rows
  length-vendor_rows i [] = refl
  length-vendor_rows i (inv ∷ invs) = omega (arith, length-vendor_rows (i + 1) invs)

  length-vendor_body :
      (s : Snapshot F)
      → length (vendor_fixed s ++ vendor_rows 0 s.inverters)
        ≡ vendor_fixed_block_len + vendor_per_inverter_len * length s.inverters
  unfolding vendor_fixed put_string
  length-vendor_body s = omega (arith, length-vendor_rows 0 s.inverters)

  -- No section without inverters, else one model.
  abbrev pub vendor_layout : Snapshot F → Layout
  vendor_layout s =
      if length s.inverters == 0
      then []
      else ((vendor_model_id, vendor_fixed_block_len + vendor_per_inverter_len * length s.inverters)
          ∷ [])

  -- Up to 6551 inverters the declared length does not wrap.
  pub emit_vendor-HasLayout :
      (s : Snapshot F) → length s.inverters < 6552 → HasLayout (vendor_layout s) (emit_vendor s)
  unfolding emit_vendor
  emit_vendor-HasLayout s few = elim (Bool-cases (length s.inverters == 0)) [
    | inl none_there ↦ rw none_there HasLayout-nil
    | inr some_there ↦
        let fits : u16 (vendor_fixed_block_len + vendor_per_inverter_len * u16 (length s.inverters))
            ≡ vendor_fixed_block_len + vendor_per_inverter_len * length s.inverters =
          omega arith in
        rw some_there (
          HasLayout-model
            (vendor_fixed s ++ vendor_rows 0 s.inverters, length-vendor_body s, rw fits refl))
  ]
