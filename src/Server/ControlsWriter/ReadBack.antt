-- ===== src/Server/ControlsWriter/ReadBack.antt =====
-- What Model 123 shows of a limit that was written to it: applyCap of internal/server/controls_writer.go
-- against invCapPct of internal/sunspec/controls.go.
use native.Mathlib.Nat.{
  le-div_iff_mul-le, mul-le-mul_left, mul-le-mul_right, div-le_of_le-mul, mul-div_cancel, mul_assoc,
  mul_left_comm,
}
use apsystems_sunspec.Base.{
  ℕ, zero, suc, ◌*◌, ◌/◌, ◌≤◌, ◌<◌, ◌≡◌, refl, ap, ◌∙◌, ltb, if◌then◌else◌, arith,
}
use apsystems_sunspec.Base.Int.{ℤ, pos, ◌*ℤ◌, quot, leb_ℤ}
use apsystems_sunspec.Base.Word.{u16_of_ℤ}
use apsystems_sunspec.Source.Inverter.{Inverter, NameplateTable, nameplate_w, panel_count}
use apsystems_sunspec.Sunspec.Controls.{
  cap_or_max, at_most, inv_cap_pct, per_inverter_controls_state,
}
use apsystems_sunspec.Source.Writer.{max_panel_limit_w}
use apsystems_sunspec.Server.ControlsWriter.{cap_watts}
use apsystems_sunspec.Server.ControlsWriter.Limits.{watts_of, cap_watts-watts_of}

abbrev pub least : ℕ → ℕ → ℕ
least a b = if ltb a b then a else b

cap_or_max-pos : (m : ℕ) → 0 < m → cap_or_max (pos m) ≡ pos m
cap_or_max-pos zero h = absurd (omega arith)
cap_or_max-pos (suc m) h = refl

-- The percentage of `n` watts to which `k` panels of `m` watts come.
abbrev pub share : ℕ → ℕ → ℕ → ℕ
share n m k = least n (m * k) * 100 / n

mul_ℤ : (a b : ℕ) → pos a *ℤ pos b ≡ pos (a * b)
unfolding ◌*ℤ◌
mul_ℤ a b = ground arith

at_most-pos : (a b : ℕ) → at_most (pos a) (pos b) ≡ pos (least a b)
at_most-pos a b = ground arith

share-le : (n m k : ℕ) → 0 < n → share n m k ≤ 100
share-le n m k h = div-le_of_le-mul n (ground arith)

share-ge : (n m k pct : ℕ) → 0 < n → pct ≤ 100 → 5 * pct ≤ m → n ≤ 500 * k → pct ≤ share n m k
share-ge n m k pct h few watts wide =
    (le-div_iff_mul-le h).1
      (grind (arith, mul-le-mul_right n few, mul-le-mul_left pct wide, mul-le-mul_right k watts))

least-full : (n k pct : ℕ) → pct ≤ 100 → n ≡ 500 * k → least n (5 * pct * k) * 100 ≡ pct * n
least-full n k pct few full =
    let left : 5 * pct * k ≡ 5 * (pct * k) = mul_assoc 5 pct k in
    let right : pct * n ≡ 500 * (pct * k) = ap (λ m. pct * m) full ∙ mul_left_comm pct 500 k in
    ground (arith, left, right, full, mul-le-mul_right k few)

share-full : (n k pct : ℕ) → 0 < n → pct ≤ 100 → n ≡ 500 * k → share n (5 * pct) k ≡ pct
share-full n k pct h few full = ap (λ m. m / n) (least-full n k pct few full) ∙ mul-div_cancel pct h

exact_watts : (pct : ℕ) → pct ≤ 100 → 4 ≤ pct → watts_of pct ≡ 5 * pct
exact_watts pct few enough = ground (arith, few, enough)

least-share : (n m k : ℕ) → 0 < n → least 100 (share n m k) ≡ share n m k
least-share n m k h = ground (arith, share-le n m k h)

capped_share :
    (n m k : ℕ)
    → 0 < n
    → at_most (pos 100) (quot (at_most (pos n) (pos m *ℤ pos k) *ℤ pos 100) (pos n))
      ≡ pos (share n m k)
unfolding quot
capped_share n m k h =
    rw (mul_ℤ m k, at_most-pos n (m * k), mul_ℤ (least n (m * k)) 100)
      (at_most-pos 100 (share n m k) ∙ ap pos (least-share n m k h))

-- The percentage of a cap, after its defaults.
abbrev pct_of_cap : ℤ → ℤ → ℕ → ℤ
pct_of_cap cap nameplate k =
    if leb_ℤ nameplate (pos 0)
    then at_most (pos 100) (quot (cap *ℤ pos 100) max_panel_limit_w)
    else at_most (pos 100) (quot (at_most nameplate (cap *ℤ pos k) *ℤ pos 100) nameplate)

pct_of_cap-share :
    (n m k : ℕ) → 0 < m → 0 < n → pct_of_cap (cap_or_max (pos m)) (pos n) k ≡ pos (share n m k)
pct_of_cap-share n m k hm hn =
    ap (λ cap. pct_of_cap cap (pos n) k) (cap_or_max-pos m hm)
    ∙ ground (arith, hn, capped_share n m k hn)

module _ {F : Type 0} (tbl : NameplateTable) where
  inv_cap_pct-share :
      (inv : Inverter F) (n m : ℕ)
      → 0 < m
      → 0 < n
      → inv.limited_power_w ≡ pos m
      → nameplate_w tbl inv ≡ pos n
      → inv_cap_pct tbl inv ≡ pos (share n m (panel_count inv))
  unfolding inv_cap_pct
  inv_cap_pct-share inv n m hm hn limit plate =
      ap (λ w. pct_of_cap (cap_or_max w) (nameplate_w tbl inv) (panel_count inv)) limit
      ∙ ap (λ w. pct_of_cap (cap_or_max (pos m)) w (panel_count inv)) plate
      ∙ pct_of_cap-share n m (panel_count inv) hm hn

  published-share :
      (inv : Inverter F) (n m : ℕ)
      → 0 < n
      → inv_cap_pct tbl inv ≡ pos (share n m (panel_count inv))
      → (per_inverter_controls_state tbl inv).pct ≡ share n m (panel_count inv)
  unfolding per_inverter_controls_state u16_of_ℤ
  published-share inv n m hn e = ap u16_of_ℤ e ∙ omega (arith, share-le n m (panel_count inv) hn)

  -- Of an inverter that reports the limit which a WMaxLimPct of at most 100 sets, and whose known
  -- nameplate is no more than 500 W for each of its panels, Model 123 publishes the percentage of the
  -- nameplate to which that limit comes: never less than the percentage written, and the same, from 4
  -- on, where the nameplate is 500 W for each panel.
  pub per_inverter_controls_state-cap_watts :
      (inv : Inverter F) (pct n : ℕ)
      → pct ≤ 100
      → 0 < n
      → n ≤ 500 * panel_count inv
      → inv.limited_power_w ≡ cap_watts pct
      → nameplate_w tbl inv ≡ pos n
      → let shown = (per_inverter_controls_state tbl inv).pct in
        (shown ≡ share n (watts_of pct) (panel_count inv))
        × (pct ≤ shown)
        × (4 ≤ pct → n ≡ 500 * panel_count inv → shown ≡ pct)
  per_inverter_controls_state-cap_watts inv pct n few known wide limit plate =
      let shown = published-share inv n (watts_of pct) known (
        inv_cap_pct-share inv n (watts_of pct) (ground arith) known (limit ∙ cap_watts-watts_of pct)
          plate) in
      rw shown (
        refl,
        share-ge n (watts_of pct) (panel_count inv) pct known few (ground (arith, few)) wide,
        λ enough full.
            ap (λ m. share n m (panel_count inv)) (exact_watts pct few enough)
            ∙ share-full n (panel_count inv) pct known few full,
      )
