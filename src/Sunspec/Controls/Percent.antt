-- ===== src/Sunspec/Controls/Percent.antt =====
-- The values that Model 123 publishes, internal/sunspec/controls.go.
use apsystems_sunspec.Base.{
  ℕ, zero, suc, ◌+◌, ◌*◌, ◌≤◌, ◌≡◌, ◌≢◌, refl, Bool, false, List, [], ◌∷◌, All, length, ltb, ◌==◌,
  if◌then◌else◌, arith, ◌&&◌, ◌||◌, Bool-cases, inl, inr,
}
use native.Mathlib.Nat.{div-lt_iff_lt-mul}
use apsystems_sunspec.Base.Int.{ℤ, pos, negsuc, pos_part, neg_part, ◌+ℤ◌, ◌*ℤ◌, quot, leb_ℤ, ltb_ℤ}
use apsystems_sunspec.Base.Word.{u16_of_ℤ}
use apsystems_sunspec.Source.Inverter.{Inverter, NameplateTable, panel_count, nameplate_w}
use apsystems_sunspec.Source.Snapshot.{Snapshot}
use apsystems_sunspec.Source.Writer.{max_panel_limit_w}
use apsystems_sunspec.Sunspec.Controls.{
  cap_or_max, at_most, average_controls, inv_cap_pct, sum_controls, aggregate_controls_state,
}

-- A number that is not negative, and one from 0 to `n`.
abbrev pub IsUpTo : ℕ → ℤ → Type 0
IsUpTo n z = (neg_part z ≡ 0) × (pos_part z ≤ n)

mul_nonneg : (a : ℤ) (n : ℕ) → neg_part a ≡ 0 → neg_part (a *ℤ pos n) ≡ 0
unfolding ◌*ℤ◌
mul_nonneg (pos a) n h = ground arith
mul_nonneg (negsuc a) n h = absurd (omega (arith, h))

quot_nonneg : (a b : ℤ) → neg_part a ≡ 0 → neg_part b ≡ 0 → neg_part (quot a b) ≡ 0
unfolding quot
quot_nonneg (pos a) (pos b) h k = refl
quot_nonneg (negsuc a) b h k = absurd (omega (arith, h))
quot_nonneg (pos a) (negsuc b) h k = absurd (omega (arith, k))

at_most_nonneg : (hi z : ℤ) → neg_part hi ≡ 0 → neg_part z ≡ 0 → neg_part (at_most hi z) ≡ 0
at_most_nonneg hi z h k = ground arith

at_most-IsUpTo : (n : ℕ) (z : ℤ) → neg_part z ≡ 0 → IsUpTo n (at_most (pos n) z)
at_most-IsUpTo n z h = ground arith

cap_nonneg : (z : ℤ) → neg_part z ≡ 0 → neg_part (cap_or_max z) ≡ 0
cap_nonneg (pos zero) h = refl
cap_nonneg (pos (suc n)) h = refl
cap_nonneg (negsuc n) h = absurd (omega (arith, h))

-- A sum of two such numbers.
sum-IsUpTo : (m n : ℕ) (a b : ℤ) → IsUpTo m a → IsUpTo n b → IsUpTo (m + n) (a +ℤ b)
unfolding ◌+ℤ◌
sum-IsUpTo m n a b h k = ground arith

above_zero : (z : ℤ) → leb_ℤ z (pos 0) ≡ false → neg_part z ≡ 0
above_zero (pos n) h = refl
above_zero (negsuc n) h = absurd (ground (arith, h))

-- A limit above 0 and below 500 W.
abbrev pub is_limit : ℤ → Bool
is_limit w = ltb_ℤ (pos 0) w && ltb_ℤ w (pos 500)

is_limit-cap : (w : ℤ) → neg_part w ≡ 0 → ltb_ℤ (cap_or_max w) max_panel_limit_w ≡ is_limit w
is_limit-cap (pos zero) h = refl
is_limit-cap (pos (suc n)) h = ground arith
is_limit-cap (negsuc n) h = absurd (omega (arith, h))

module _ {F : Type 0} (tbl : NameplateTable) where
  inv_cap_pct-IsUpTo :
      (inv : Inverter F) → neg_part inv.limited_power_w ≡ 0 → IsUpTo 100 (inv_cap_pct tbl inv)
  unfolding inv_cap_pct
  inv_cap_pct-IsUpTo inv h =
      let cap = cap_or_max inv.limited_power_w in
      let rating = nameplate_w tbl inv in
      let kept = cap_nonneg inv.limited_power_w h in
      elim (Bool-cases (leb_ℤ rating (pos 0))) [
        | inl e ↦ rw e (
            at_most-IsUpTo 100 _
              (quot_nonneg (cap *ℤ pos 100) max_panel_limit_w (mul_nonneg cap 100 kept) refl))
        | inr e ↦
            let up = above_zero rating e in
            let effective = at_most rating (cap *ℤ pos (panel_count inv)) in
            rw e (
              at_most-IsUpTo 100 _ (
                quot_nonneg (effective *ℤ pos 100) rating
                  (mul_nonneg effective 100
                    (at_most_nonneg rating _ up (mul_nonneg cap (panel_count inv) kept)))
                  up))
      ]

  -- No inverter reports a negative limit.
  abbrev pub LimitsNonneg : List (Inverter F) → Type 0
  LimitsNonneg invs = All (λ inv. neg_part inv.limited_power_w ≡ 0) invs

  sum_controls-IsUpTo :
      (m limited online : ℕ) (total : ℤ) (invs : List (Inverter F))
      → IsUpTo m total
      → LimitsNonneg invs
      → IsUpTo (m + 100 * length invs) (sum_controls tbl total limited online invs).0
  unfolding sum_controls
  sum_controls-IsUpTo m limited online total [] h all = ground (arith, h)
  sum_controls-IsUpTo m limited online total (inv ∷ invs) h all =
      let next =
        sum_controls-IsUpTo (m + 100) _ _ (total +ℤ inv_cap_pct tbl inv) invs
          (sum-IsUpTo m 100 total (inv_cap_pct tbl inv) h (inv_cap_pct-IsUpTo inv all.0)) all.1 in
      (next.0, omega (arith, next.1))

  -- Some inverter reports such a limit; some inverter is online.
  abbrev pub any_limited : List (Inverter F) → Bool
  any_limited [] = false
  any_limited (inv ∷ invs) = is_limit inv.limited_power_w || any_limited invs

  abbrev pub any_online : List (Inverter F) → Bool
  any_online [] = false
  any_online (inv ∷ invs) = inv.online || any_online invs

  sum_controls-limited :
      (limited online : ℕ) (total : ℤ) (invs : List (Inverter F))
      → LimitsNonneg invs
      → ltb 0 (sum_controls tbl total limited online invs).1 ≡ (ltb 0 limited || any_limited invs)
  unfolding sum_controls
  sum_controls-limited limited online total [] all = ground arith
  sum_controls-limited limited online total (inv ∷ invs) all = ground (
    arith,
    is_limit-cap inv.limited_power_w all.0,
    sum_controls-limited
        (if ltb_ℤ (cap_or_max inv.limited_power_w) max_panel_limit_w then limited + 1 else limited)
        (if inv.online then online + 1 else online) (total +ℤ inv_cap_pct tbl inv) invs all.1,
  )

  sum_controls-online :
      (limited online : ℕ) (total : ℤ) (invs : List (Inverter F))
      → ltb 0 (sum_controls tbl total limited online invs).2 ≡ (ltb 0 online || any_online invs)
  unfolding sum_controls
  sum_controls-online limited online total [] = ground arith
  sum_controls-online limited online total (inv ∷ invs) = ground (
    arith,
    sum_controls-online
        (if ltb_ℤ (cap_or_max inv.limited_power_w) max_panel_limit_w then limited + 1 else limited)
        (if inv.online then online + 1 else online) (total +ℤ inv_cap_pct tbl inv) invs,
  )

average-le : (t : ℤ) (n : ℕ) → n ≢ 0 → IsUpTo (100 * n) t → u16_of_ℤ (quot t (pos n)) ≤ 100
unfolding quot u16_of_ℤ
average-le (pos t) n some_inverter h =
    let bound =
      (div-lt_iff_lt-mul {k = n} {x = t} {y = 101} (omega (arith, some_inverter))).1
        (omega (arith, h.1)) in
    omega (arith, bound)
average-le (negsuc t) n some_inverter h = absurd (omega (arith, h.0))

module _ {F : Type 0} (tbl : NameplateTable) where
  -- In a fleet with inverters, none of which reports a negative limit, the aggregate Model 123
  -- publishes a WMaxLimPct of at most 100; its WMaxLim_Ena is 1 when some inverter reports a limit
  -- above 0 and below 500 W, else 0, a limit of 0 counting as none; and its Conn is 1 when some inverter is online, else 0.
  pub aggregate_controls_state-range :
      (s : Snapshot F)
      → length s.inverters ≢ 0
      → LimitsNonneg tbl s.inverters
      → let c = aggregate_controls_state tbl s in
        (c.pct ≤ 100)
        × (c.ena ≡ (if any_limited tbl s.inverters then 1 else 0))
        × (c.conn ≡ (if any_online tbl s.inverters then 1 else 0))
  unfolding aggregate_controls_state average_controls
  aggregate_controls_state-range s some_inverter all =
      let e : (length s.inverters == 0) ≡ false = ground (arith, some_inverter) in
      let sum = sum_controls-IsUpTo tbl 0 0 0 (pos 0) s.inverters (refl, omega arith) all in
      let lim = sum_controls-limited tbl 0 0 (pos 0) s.inverters all in
      let onl = sum_controls-online tbl 0 0 (pos 0) s.inverters in
      rw (e, lim, onl)
        (average-le _ (length s.inverters) some_inverter (sum.0, omega (arith, sum.1)), refl, refl)
