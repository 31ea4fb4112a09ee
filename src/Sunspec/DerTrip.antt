-- ===== src/Sunspec/DerTrip.antt =====
-- internal/sunspec/der_trip.go: Models 707 to 710, the trip curves.
use apsystems_sunspec.Base.{
  ℕ, refl, Bool, ◌&&◌, Option, some, none, List, [], ◌∷◌, ◌++◌, Str, codes, lookup, ltb,
  if◌then◌else◌, drop, length, zero, suc, ◌==◌,
}
use apsystems_sunspec.Base.Int.{negsuc}
use apsystems_sunspec.Base.Word.{u16}
use apsystems_sunspec.Floats.{Floats}
use apsystems_sunspec.Source.Protection.{ProtectionParams, no_params}
use apsystems_sunspec.Source.Inverter.{Inverter}
use apsystems_sunspec.Source.Snapshot.{Snapshot}
use apsystems_sunspec.Sunspec.Bank.{acc32, scale_factor}
use apsystems_sunspec.Sunspec.Chain.{IsModel}

abbrev pub der_trip_v_body_len : ℕ
der_trip_v_body_len = 38

abbrev pub der_trip_hz_body_len : ℕ
der_trip_hz_body_len = 47

abbrev pub der_trip_n_pt : ℕ
der_trip_n_pt = 3

abbrev pub der_trip_lv_model_id : ℕ
der_trip_lv_model_id = 707

abbrev pub der_trip_hv_model_id : ℕ
der_trip_hv_model_id = 708

abbrev pub der_trip_lf_model_id : ℕ
der_trip_lf_model_id = 709

abbrev pub der_trip_hf_model_id : ℕ
der_trip_hf_model_id = 710

-- AdptCrvRslt: COMPLETED.
abbrev der_trip_rslt_completed : ℕ
der_trip_rslt_completed = 1

-- A point of a curve: a value and a time in centiseconds.
pub record Point : Type 0 where
  pub val : ℕ
  pub tms : ℕ

abbrev pub no_point : Point
no_point = record { val = 0; tms = 0 }

pub record Trip3Pt : Type 0 where
  pub act_pt : ℕ
  pub point0 : Point
  pub point1 : Point
  pub point2 : Point

abbrev pub no_tier : Trip3Pt
no_tier = record { act_pt = 0; point0 = no_point; point1 = no_point; point2 = no_point }

emit_v_point : Point → List ℕ
emit_v_point p = u16 p.val ∷ acc32 p.tms

unfoldable pub emit_v_tier : Trip3Pt → List ℕ
unfolding emit_v_point
emit_v_tier t = t.act_pt ∷ emit_v_point t.point0 ++ emit_v_point t.point1 ++ emit_v_point t.point2

emit_hz_point : Point → List ℕ
emit_hz_point p = acc32 p.val ++ acc32 p.tms

unfoldable pub emit_hz_tier : Trip3Pt → List ℕ
unfolding emit_hz_point
emit_hz_tier t =
    t.act_pt ∷ emit_hz_point t.point0 ++ emit_hz_point t.point1 ++ emit_hz_point t.point2

-- The seven registers behind the header and the curve's ReadOnly, which is 1.
der_trip_head : Trip3Pt → List ℕ
der_trip_head must =
    (if ltb 0 must.act_pt then 1 else 0)
    ∷ 0
    ∷ der_trip_rslt_completed
    ∷ der_trip_n_pt
    ∷ 1
    ∷ scale_factor (negsuc 1)
    ∷ scale_factor (negsuc 1)
    ∷ 1
    ∷ []

-- The source hands `vNom` along and does not use it.
unfoldable pub emit_der_trip_v : ℕ → Trip3Pt → List ℕ
unfolding der_trip_head emit_v_tier
emit_der_trip_v model_id must =
    model_id ∷ der_trip_v_body_len ∷ der_trip_head must
    ++ emit_v_tier must
    ++ emit_v_tier no_tier
    ++ emit_v_tier no_tier

unfoldable pub emit_der_trip_hz : ℕ → Trip3Pt → List ℕ
unfolding der_trip_head emit_hz_tier
emit_der_trip_hz model_id must =
    model_id ∷ der_trip_hz_body_len ∷ der_trip_head must
    ++ emit_hz_tier must
    ++ emit_hz_tier no_tier
    ++ emit_hz_tier no_tier

pub emit_der_trip_v-IsModel :
    (id : ℕ) (must : Trip3Pt) → IsModel id der_trip_v_body_len (emit_der_trip_v id must)
unfolding emit_der_trip_v
emit_der_trip_v-IsModel id must = (drop 2 (emit_der_trip_v id must), refl, refl)

pub emit_der_trip_hz-IsModel :
    (id : ℕ) (must : Trip3Pt) → IsModel id der_trip_hz_body_len (emit_der_trip_hz id must)
unfolding emit_der_trip_hz
emit_der_trip_hz-IsModel id must = (drop 2 (emit_der_trip_hz id must), refl, refl)

-- A point is written at the first free place of a tier: `Points[n]`, then `n++`.
unfoldable pub add_point : Trip3Pt → Point → Trip3Pt
add_point t p = elim t.act_pt [
  | zero ↦ record t { act_pt = 1; point0 = p }
  | suc n ↦ elim n [
    | zero ↦ record t { act_pt = 2; point1 = p }
    | suc m ↦ record t { act_pt = 3; point2 = p }
  ]
]

abbrev pub add_if : Bool → Point → Trip3Pt → Trip3Pt
add_if b p t = if b then add_point t p else t

module _ (fl : Floats) where
  open fl use {F, lit, lt, le, add, mul, div, to_u16, to_u32}

  abbrev pub v_default : F
  v_default = lit 230 0

  unfoldable pub pct_of_v_nom : F → F → ℕ
  pct_of_v_nom v v_nom =
      if le v (lit 0 0)
      then 0
      else (let nominal = if le v_nom (lit 0 0) then v_default else v_nom in
          let pct = mul (div v nominal) (lit 10000 0) in
          if lt pct (lit 0 0)
          then 0
          else if lt (lit 65535 0) pct
          then 65535
          else to_u16 (add pct (lit 5 1)))

  unfoldable pub hz_centi : F → ℕ
  hz_centi hz =
      if le hz (lit 0 0)
      then 0
      else (let v = mul hz (lit 100 0) in
          if lt (lit 4294967295 0) v then 4294967295 else to_u32 (add v (lit 5 1)))

  unfoldable pub sec_centi : F → ℕ
  sec_centi s =
      if le s (lit 0 0)
      then 0
      else (let v = mul s (lit 100 0) in
          if lt (lit 4294967295 0) v then 4294967295 else to_u32 (add v (lit 5 1)))

  module _ (p : ProtectionParams F) (v_nom : F) where
    open p use {has}

    -- The four results of tripPointsFromProtection.
    unfoldable pub lv_tier : Trip3Pt
    lv_tier =
        add_if (has (codes "AQ") && has (codes "BD"))
          (record { val = pct_of_v_nom p.uv_fast v_nom; tms = sec_centi p.uv3_clr_s })
          (add_if (has (codes "AC") && has (codes "BB"))
            (record { val = pct_of_v_nom p.uv_stg2 v_nom; tms = sec_centi p.uv2_clr_s }) no_tier)

    hv_stages : Trip3Pt
    hv_stages =
        add_if (has (codes "AD") && has (codes "BC"))
          (record { val = pct_of_v_nom p.ov_stg2 v_nom; tms = sec_centi p.ov2_clr_s })
          (add_if (has (codes "AY") && has (codes "BE"))
            (record { val = pct_of_v_nom p.ov_stg3 v_nom; tms = sec_centi p.ov3_clr_s }) no_tier)

    unfoldable pub hv_tier : Trip3Pt
    unfolding hv_stages
    hv_tier =
        add_if (has (codes "AB") && ltb hv_stages.act_pt der_trip_n_pt)
          (record { val = pct_of_v_nom p.avg_ov v_nom; tms = sec_centi (lit 600 0) }) hv_stages

    unfoldable pub lf_tier : Trip3Pt
    lf_tier =
        add_if (has (codes "AJ") && has (codes "BH"))
          (record { val = hz_centi p.uf_fast; tms = sec_centi p.uf1_clr_s })
          (add_if (has (codes "AE") && has (codes "BJ"))
            (record { val = hz_centi p.uf_slow; tms = sec_centi p.uf2_clr_s }) no_tier)

    unfoldable pub hf_tier : Trip3Pt
    hf_tier =
        add_if (has (codes "AK") && has (codes "BI"))
          (record { val = hz_centi p.of_fast; tms = sec_centi p.of1_clr_s })
          (add_if (has (codes "AF") && has (codes "BK"))
            (record { val = hz_centi p.of_slow; tms = sec_centi p.of2_clr_s }) no_tier)

    unfoldable pub emit_der_trip_models : List ℕ
    emit_der_trip_models =
        emit_der_trip_v der_trip_lv_model_id lv_tier
        ++ (emit_der_trip_v der_trip_hv_model_id hv_tier
            ++ (emit_der_trip_hz der_trip_lf_model_id lf_tier
                ++ emit_der_trip_hz der_trip_hf_model_id hf_tier))

  -- The loop over the inverters, then the one over the map.
  first_of_inverters :
      List (Inverter F) → List (Str × ProtectionParams F) → Option (ProtectionParams F)
  first_of_inverters [] ps = none
  first_of_inverters (inv ∷ invs) ps = elim (lookup inv.uid ps) [
    | some p ↦ some p
    | none ↦ first_of_inverters invs ps
  ]

  first_of_map : List (Str × ProtectionParams F) → ProtectionParams F
  first_of_map [] = no_params (lit 0 0)
  first_of_map ((uid, p) ∷ ps) = p

  unfoldable pub aggregate_protection : Snapshot F → ProtectionParams F
  unfolding first_of_inverters first_of_map
  aggregate_protection s =
      if length s.protection == 0
      then no_params (lit 0 0)
      else elim (first_of_inverters s.inverters s.protection) [
        | some p ↦ p
        | none ↦ first_of_map s.protection
      ]
