-- ===== src/Source/Protection/Rows.antt =====
-- PerInverterProtection of internal/source/protection.go: the rows of protection_parameters60code.
use apsystems_sunspec.Base.{
  Bool, true, false, Option, none, some, List, [], ◌∷◌, Str, codes, lookup,
}
use apsystems_sunspec.Floats.{Floats}
use apsystems_sunspec.Source.Protection.{ProtectionParams}
use apsystems_sunspec.Source.Reader.{Answer, query_failed, no_such_table, rows, map_of_rows}

-- A row's columns, each null or a number.
pub record ProtectionRow (F : Type 0) : Type 0 where
  pub uid : Str
  pub ab : Option F
  pub ac : Option F
  pub ad : Option F
  pub ae : Option F
  pub af : Option F
  pub ag : Option F
  pub ah : Option F
  pub ai : Option F
  pub aj : Option F
  pub ak : Option F
  pub aq : Option F
  pub as_start : Option F
  pub ay : Option F
  pub bb : Option F
  pub bc : Option F
  pub bd : Option F
  pub be : Option F
  pub bh : Option F
  pub bi : Option F
  pub bj : Option F
  pub bk : Option F
  pub bn : Option F
  pub bo : Option F
  pub bp : Option F
  pub bq : Option F
  pub ch : Option F
  pub cc_ : Option F
  pub cv : Option F
  pub dc : Option F
  pub dd : Option F
  pub cb : Option F
  pub dh : Option F
  pub di : Option F

-- The calls of `set`, in their order.
abbrev pub columns : {F : Type 0} → ProtectionRow F → List (Str × Option F)
columns r =
    (codes "AB", r.ab)
    ∷ (codes "AC", r.ac)
    ∷ (codes "AD", r.ad)
    ∷ (codes "AE", r.ae)
    ∷ (codes "AF", r.af)
    ∷ (codes "AG", r.ag)
    ∷ (codes "AH", r.ah)
    ∷ (codes "AI", r.ai)
    ∷ (codes "AJ", r.aj)
    ∷ (codes "AK", r.ak)
    ∷ (codes "AQ", r.aq)
    ∷ (codes "AS", r.as_start)
    ∷ (codes "AY", r.ay)
    ∷ (codes "BB", r.bb)
    ∷ (codes "BC", r.bc)
    ∷ (codes "BD", r.bd)
    ∷ (codes "BE", r.be)
    ∷ (codes "BH", r.bh)
    ∷ (codes "BI", r.bi)
    ∷ (codes "BJ", r.bj)
    ∷ (codes "BK", r.bk)
    ∷ (codes "BN", r.bn)
    ∷ (codes "BO", r.bo)
    ∷ (codes "BP", r.bp)
    ∷ (codes "BQ", r.bq)
    ∷ (codes "CH", r.ch)
    ∷ (codes "CC", r.cc_)
    ∷ (codes "CV", r.cv)
    ∷ (codes "DC", r.dc)
    ∷ (codes "DD", r.dd)
    ∷ (codes "CB", r.cb)
    ∷ (codes "DH", r.dh)
    ∷ (codes "DI", r.di)
    ∷ []

-- The field that `set` writes: untouched, and so zero, where the column is null.
abbrev pub written_or : {F : Type 0} → F → Option F → F
written_or z none = z
written_or z (some v) = v

abbrev pub is_written : {F : Type 0} → Option (Option F) → Bool
is_written none = false
is_written (some none) = false
is_written (some (some v)) = true

module _ (fl : Floats) where
  open fl use {F, lit}

  unfoldable pub params_of_row : ProtectionRow F → ProtectionParams F
  params_of_row r =
      let w = written_or (lit 0 0) in
      record {
        avg_ov = w r.ab;
        uv_stg2 = w r.ac;
        ov_stg2 = w r.ad;
        uf_slow = w r.ae;
        of_slow = w r.af;
        reconnect_s = w r.ag;
        v_win_low = w r.ah;
        v_win_hi = w r.ai;
        uf_fast = w r.aj;
        of_fast = w r.ak;
        uv_fast = w r.aq;
        start_s = w r.as_start;
        ov_stg3 = w r.ay;
        uv2_clr_s = w r.bb;
        ov2_clr_s = w r.bc;
        uv3_clr_s = w r.bd;
        ov3_clr_s = w r.be;
        uf1_clr_s = w r.bh;
        of1_clr_s = w r.bi;
        uf2_clr_s = w r.bj;
        of2_clr_s = w r.bk;
        reconn_v_low = w r.bn;
        reconn_v_hi = w r.bo;
        reconn_f_low = w r.bp;
        reconn_f_hi = w r.bq;
        pf_mode = w r.ch;
        of_droop_end = w r.cc_;
        of_droop_mode = w r.cv;
        of_droop_start = w r.dc;
        of_droop_slope = w r.dd;
        of_curve_of_low = w r.cb;
        of_curve_uf_low = w r.dh;
        of_curve_uf_high = w r.di;
        has = λ code. is_written (lookup code (columns r));
      }

  abbrev entry_of : Option (ProtectionRow F) → Option (Str × ProtectionParams F)
  entry_of none = none
  entry_of (some r) = some (r.uid, params_of_row r)

  abbrev entries_of_rows :
      List (Option (ProtectionRow F)) → List (Option (Str × ProtectionParams F))
  entries_of_rows [] = []
  entries_of_rows (r ∷ rs) = entry_of r ∷ entries_of_rows rs

  -- A missing table is an empty map, any other error an error.
  unfoldable pub per_inverter_protection :
      Answer (ProtectionRow F) → Option (List (Str × ProtectionParams F))
  per_inverter_protection query_failed = none
  per_inverter_protection no_such_table = some []
  per_inverter_protection (rows rs ok) = map_of_rows (rows (entries_of_rows rs) ok)
