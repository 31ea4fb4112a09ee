-- ===== src/Server/FreqDroopWriter/Ranges.antt =====
-- What a write to Model 711 must satisfy, internal/server/freq_droop_writer.go.
use apsystems_sunspec.Base.{
  ℕ, zero, suc, ◌+◌, ◌≤◌, ◌<◌, ◌≡◌, ◌≢◌, refl, Bool, true, false, ◌||◌, some, none, List, codes,
  arith, Option-cases, ◌⊎◌, inl, inr, sym, ap, ◌∙◌,
}
use apsystems_sunspec.Floats.{Floats}
use apsystems_sunspec.Source.Database.{Database}
use apsystems_sunspec.Source.Inverter.{Inverter}
use apsystems_sunspec.Source.Snapshot.{Snapshot}
use apsystems_sunspec.Source.Writer.{Action, after, after-none}
use apsystems_sunspec.Sunspec.FreqDroop.{freq_droop_model_id}
use apsystems_sunspec.Server.FreqDroopWriter.{
  Request, request_of, hz_start, touches_read_only, droop_writable, write_start, write_slope,
  write_delay_time, write_mode, expected_of, track_expected, write_fields, write_request,
  freq_droop_apply,
}
use apsystems_sunspec.Server.Tracker.{protection_at}
use apsystems_sunspec.Server.World.{World, write_touches, inverter_of_unit}

split : (k off : ℕ) → (k ≡ off) ⊎ (k ≢ off)
split k off = ground arith

touches_read_only-false :
    (writable : ℕ → Bool) (addr_offset : ℕ) (regs : List ℕ) (off n k : ℕ)
    → touches_read_only writable addr_offset regs off n ≡ false
    → off ≤ k
    → k < off + n
    → write_touches addr_offset regs k ≡ true
    → writable k ≡ true
unfolding touches_read_only
touches_read_only-false writable addr_offset regs off zero k h above below touched =
    absurd (omega arith)
touches_read_only-false writable addr_offset regs off (suc n) k h above below touched =
    elim (split k off) [
      | inl e ↦ ground (arith, h, touched, e)
      | inr up ↦
          touches_read_only-false writable addr_offset regs (off + 1) n k (ground (arith, h))
            (omega arith) (omega arith) touched
    ]

module _ (fl : Floats) (d : Database fl.F) where
  open fl use {F, lit, lt, le, sub}

  -- The values that a write gives are in range.
  abbrev pub InRange : Request fl d → Type 0
  InRange r =
      (r.prot.has (codes "AK") ≡ true)
      × (r.wants.db_of ≡ true
          → (le (hz_start fl d r.db_of) (lit 50 0) ≡ false)
            × (lt (sub r.prot.of_fast (lit 5 1)) (hz_start fl d r.db_of) ≡ false))
      × (r.wants.k_of ≡ true → (100 ≤ r.k_of) × (r.k_of ≤ 1500))

  write_start-range :
      (r : Request fl d) (w : World d)
      → (write_start fl d r w).0 ≡ none
      → r.wants.db_of ≡ true
      → (le (hz_start fl d r.db_of) (lit 50 0) ≡ false)
        × (lt (sub r.prot.of_fast (lit 5 1)) (hz_start fl d r.db_of) ≡ false)
  unfolding write_start
  write_start-range r w ok wants = ground (arith, ok, wants)

  write_slope-range :
      (r : Request fl d) (w : World d)
      → (write_slope fl d r w).0 ≡ none
      → r.wants.k_of ≡ true
      → (100 ≤ r.k_of) × (r.k_of ≤ 1500)
  unfolding write_slope
  write_slope-range r w ok wants = ground (arith, ok, wants)

  -- What write_fields does once the trip threshold is known and the slope is written.
  abbrev last_fields : ℕ → Request fl d → Action (World d)
  last_fields uid r w2 = after (write_delay_time fl d r w2) (λ w3.
      after (write_mode fl d r w3)
        (λ w4. (none, track_expected fl d uid freq_droop_model_id (expected_of fl d r) w4)))

  write_fields-known :
      (uid : ℕ) (r : Request fl d) (w : World d)
      → r.prot.has (codes "AK") ≡ true
      → write_fields fl d uid r w
        ≡ after (write_start fl d r w) (λ w1. after (write_slope fl d r w1) (last_fields uid r))
  unfolding write_fields
  write_fields-known uid r w known = rw known refl

  write_fields-range :
      (uid : ℕ) (r : Request fl d) (w : World d) → (write_fields fl d uid r w).0 ≡ none → InRange r
  unfolding write_fields
  write_fields-range uid r w ok =
      let known : r.prot.has (codes "AK") ≡ true = ground (arith, ok) in
      let steps = ap (λ o. o.0) (sym (write_fields-known uid r w known)) ∙ ok in
      let (start_ok, next) = after-none (write_start fl d r w) _ steps in
      let w1 = (write_start fl d r w).1 in
      let (slope_ok, last) =
        after-none (write_slope fl d r w1) _ (ap (λ o. o.0) (sym next) ∙ steps) in
      (known, write_start-range r w start_ok, write_slope-range r w1 slope_ok)

  -- The offsets of the body that a write touches are all writable.
  abbrev pub OnlyWritable : ℕ → List ℕ → Type 0
  OnlyWritable addr_offset regs =
      (k : ℕ) → k < 22 → write_touches addr_offset regs k ≡ true → droop_writable k ≡ true

  write_request-range :
      (uid : ℕ) (r : Request fl d) (addr_offset : ℕ) (regs : List ℕ) (w : World d)
      → (write_request fl d uid r addr_offset regs w).0 ≡ none
      → OnlyWritable addr_offset regs
        × ((r.wants.ena || r.wants.db_of || r.wants.k_of || r.wants.rsp_tms) ≡ true → InRange r)
  unfolding write_request
  write_request-range uid r addr_offset regs w ok = (
    λ k below touched.
        touches_read_only-false droop_writable addr_offset regs 0 22 k (ground (arith, ok))
          (omega arith) (omega arith) touched,
    λ wants. write_fields-range uid r w (ground (arith, ok, wants)),
  )

  -- A write to Model 711 that succeeds was addressed to an inverter's own unit and touches only
  -- writable registers; and where it covers a field, the inverter's trip threshold is known, a new
  -- start frequency is above 50 Hz and no closer than 0.5 Hz to that threshold, and a new slope is
  -- between 100 and 1500.
  pub freq_droop_apply-range :
      (snap : Snapshot F) (uid addr_offset : ℕ) (regs : List ℕ) (w : World d)
      → (freq_droop_apply fl d snap uid addr_offset regs w).0 ≡ none
      → (inv : Inverter F) × (inverter_of_unit snap uid ≡ some inv)
        × OnlyWritable addr_offset regs
        × (let r = request_of fl d inv (protection_at fl snap inv.uid) addr_offset regs in
            (r.wants.ena || r.wants.db_of || r.wants.k_of || r.wants.rsp_tms) ≡ true → InRange r)
  unfolding freq_droop_apply
  freq_droop_apply-range snap uid addr_offset regs w ok =
      elim (Option-cases (inverter_of_unit snap uid)) [
        | inl e ↦ absurd (ground (arith, e, ok))
        | inr (inv, e) ↦
            let r = request_of fl d inv (protection_at fl snap inv.uid) addr_offset regs in
            let out = write_request-range uid r addr_offset regs w (ground (arith, e, ok)) in
            (inv, e, out.0, out.1)
      ]
