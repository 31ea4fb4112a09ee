-- ===== src/Sunspec/Controls.antt =====
-- internal/sunspec/controls.go: Model 123, the inverter controls.
pub mod Percent
use apsystems_sunspec.Base.{
  ℕ, zero, suc, ◌+◌, refl, List, [], ◌∷◌, length, ltb, ◌==◌, if◌then◌else◌, drop,
}
use apsystems_sunspec.Base.Int.{ℤ, pos, negsuc, ◌+ℤ◌, ◌*ℤ◌, quot, ltb_ℤ, leb_ℤ}
use apsystems_sunspec.Base.Word.{u16_of_ℤ}
use apsystems_sunspec.Source.Inverter.{Inverter, NameplateTable, panel_count, nameplate_w}
use apsystems_sunspec.Source.Snapshot.{Snapshot}
use apsystems_sunspec.Source.Writer.{max_panel_limit_w}
use apsystems_sunspec.Sunspec.Bank.{not_impl_u16, not_impl_s16, scale_factor}
use apsystems_sunspec.Sunspec.Chain.{IsModel}

abbrev pub controls_model_id : ℕ
controls_model_id = 123

abbrev pub controls_body_len : ℕ
controls_body_len = 24

abbrev pub off_controls_conn : ℕ
off_controls_conn = 2

abbrev pub off_controls_w_max_lim_pct : ℕ
off_controls_w_max_lim_pct = 3

abbrev pub off_controls_w_max_lim_pct_rvrt_tms : ℕ
off_controls_w_max_lim_pct_rvrt_tms = 5

abbrev pub off_controls_w_max_lim_ena : ℕ
off_controls_w_max_lim_ena = 7

-- What Model 123 publishes: WMaxLimPct, WMaxLim_Ena and Conn.
pub record ControlsState : Type 0 where
  pub pct : ℕ
  pub ena : ℕ
  pub conn : ℕ

unfoldable pub emit_controls : ControlsState → List ℕ
emit_controls c =
    controls_model_id
    ∷ controls_body_len
    ∷ not_impl_u16
    ∷ not_impl_u16
    ∷ c.conn
    ∷ c.pct
    ∷ not_impl_u16
    ∷ not_impl_u16
    ∷ not_impl_u16
    ∷ c.ena
    ∷ not_impl_s16
    ∷ not_impl_u16
    ∷ not_impl_u16
    ∷ not_impl_u16
    ∷ 0
    ∷ not_impl_s16
    ∷ not_impl_s16
    ∷ not_impl_s16
    ∷ not_impl_u16
    ∷ not_impl_u16
    ∷ not_impl_u16
    ∷ 0
    ∷ 0
    ∷ scale_factor (pos 0)
    ∷ scale_factor (pos 0)
    ∷ scale_factor (pos 0)
    ∷ []

pub emit_controls-IsModel :
    (c : ControlsState) → IsModel controls_model_id controls_body_len (emit_controls c)
unfolding emit_controls
emit_controls-IsModel c = (drop 2 (emit_controls c), refl, refl)

-- The cap of a row that was never written is the maximum.
abbrev pub cap_or_max : ℤ → ℤ
cap_or_max (pos zero) = max_panel_limit_w
cap_or_max (pos (suc n)) = pos (suc n)
cap_or_max (negsuc n) = negsuc n

abbrev pub at_most : ℤ → ℤ → ℤ
at_most hi p = if ltb_ℤ hi p then hi else p

-- The results of the loop, over the `n` inverters that it counted.
average_controls : ℤ × ℕ × ℕ → ℕ → ControlsState
average_controls (total, limited, online) n = record {
  pct = u16_of_ℤ (quot total (pos n));
  ena = if ltb 0 limited then 1 else 0;
  conn = if ltb 0 online then 1 else 0;
}

module _ {F : Type 0} (tbl : NameplateTable) where
  unfoldable pub inv_cap_pct : Inverter F → ℤ
  inv_cap_pct inv =
      let cap = cap_or_max inv.limited_power_w in
      let nameplate = nameplate_w tbl inv in
      if leb_ℤ nameplate (pos 0)
      then at_most (pos 100) (quot (cap *ℤ pos 100) max_panel_limit_w)
      else (let effective = at_most nameplate (cap *ℤ pos (panel_count inv)) in
          at_most (pos 100) (quot (effective *ℤ pos 100) nameplate))

  -- The loop's three counters.
  unfoldable pub sum_controls : ℤ → ℕ → ℕ → List (Inverter F) → ℤ × ℕ × ℕ
  sum_controls total limited online [] = (total, limited, online)
  sum_controls total limited online (inv ∷ invs) =
      sum_controls (total +ℤ inv_cap_pct inv)
        (if ltb_ℤ (cap_or_max inv.limited_power_w) max_panel_limit_w then limited + 1 else limited)
        (if inv.online then online + 1 else online) invs

  unfoldable pub aggregate_controls_state : Snapshot F → ControlsState
  unfolding average_controls sum_controls
  aggregate_controls_state s =
      if length s.inverters == 0
      then record { pct = 100; ena = 0; conn = 0 }
      else average_controls (sum_controls (pos 0) 0 0 s.inverters) (length s.inverters)

  unfoldable pub per_inverter_controls_state : Inverter F → ControlsState
  per_inverter_controls_state inv = record {
    pct = u16_of_ℤ (inv_cap_pct inv);
    ena = if ltb_ℤ (cap_or_max inv.limited_power_w) max_panel_limit_w then 1 else 0;
    conn = if inv.online then 1 else 0;
  }
