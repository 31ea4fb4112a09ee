-- ===== src/Source/Protection.antt =====
-- internal/source/protection.go: the grid-protection thresholds of one inverter, under their
-- two-letter codes.
pub mod Rows
use apsystems_sunspec.Base.{Bool, false, Str}

-- `has` is the map Has: a missing code reads false.
pub record ProtectionParams (F : Type 0) : Type 0 where
  pub uv_stg2 : F
  pub uv_fast : F
  pub ov_stg2 : F
  pub ov_stg3 : F
  pub avg_ov : F
  pub v_win_low : F
  pub v_win_hi : F
  pub uf_slow : F
  pub of_slow : F
  pub uf_fast : F
  pub of_fast : F
  pub reconnect_s : F
  pub start_s : F
  pub uv2_clr_s : F
  pub ov2_clr_s : F
  pub uv3_clr_s : F
  pub ov3_clr_s : F
  pub uf1_clr_s : F
  pub of1_clr_s : F
  pub uf2_clr_s : F
  pub of2_clr_s : F
  pub reconn_v_low : F
  pub reconn_v_hi : F
  pub reconn_f_low : F
  pub reconn_f_hi : F
  pub pf_mode : F
  pub of_droop_start : F
  pub of_droop_end : F
  pub of_droop_slope : F
  pub of_droop_mode : F
  pub of_curve_uf_low : F
  pub of_curve_uf_high : F
  pub of_curve_of_low : F
  pub has : Str → Bool

-- The value of a Go variable that nothing was assigned: every number the zero `z`, no code present.
abbrev pub no_params : {F : Type 0} → F → ProtectionParams F
no_params z = record {
  uv_stg2 = z;
  uv_fast = z;
  ov_stg2 = z;
  ov_stg3 = z;
  avg_ov = z;
  v_win_low = z;
  v_win_hi = z;
  uf_slow = z;
  of_slow = z;
  uf_fast = z;
  of_fast = z;
  reconnect_s = z;
  start_s = z;
  uv2_clr_s = z;
  ov2_clr_s = z;
  uv3_clr_s = z;
  ov3_clr_s = z;
  uf1_clr_s = z;
  of1_clr_s = z;
  uf2_clr_s = z;
  of2_clr_s = z;
  reconn_v_low = z;
  reconn_v_hi = z;
  reconn_f_low = z;
  reconn_f_hi = z;
  pf_mode = z;
  of_droop_start = z;
  of_droop_end = z;
  of_droop_slope = z;
  of_droop_mode = z;
  of_curve_uf_low = z;
  of_curve_uf_high = z;
  of_curve_of_low = z;
  has = λ c. false;
}
