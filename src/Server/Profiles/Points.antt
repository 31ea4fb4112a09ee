-- ===== src/Server/Profiles/Points.antt =====
-- The table freqWattCurvePoints of internal/server/profiles.go, which ties registers of the Models 711
-- and 134 to the parameters' names.
use apsystems_sunspec.Base.{ℕ, ◌≡◌, refl, List, [], ◌∷◌, Str, codes, map, drop}
use apsystems_sunspec.Base.Int.{pos}
use apsystems_sunspec.Floats.{Floats}
use apsystems_sunspec.Server.FreqWattCurveWriter.{FwHzPoint, freq_watt_curve_hz_points}
use apsystems_sunspec.Server.World.{u32_of}
use apsystems_sunspec.Sunspec.FreqWattCurve.{
  freq_watt_curve_body_hz1_off, freq_watt_curve_body_hz2_off, freq_watt_curve_body_hz3_off,
  freq_watt_curve_body_hz4_off,
}

-- `decode` takes the register at `body` and the one at `body_lo`.
pub record FreqWattCurvePoint (F : Type 0) : Type 0 where
  pub model : ℕ
  pub body : ℕ
  pub body_lo : ℕ
  pub aps : Str
  pub code : Str
  pub decode : ℕ → ℕ → F

module _ (fl : Floats) where
  open fl use {F, lit, add, div, of_ℤ}

  -- float64(hi) / 100.0
  abbrev pub centi_hz : ℕ → ℕ → F
  centi_hz hi lo = div (of_ℤ (pos hi)) (lit 100 0)

  abbrev pub freq_watt_curve_points : List (FreqWattCurvePoint F)
  freq_watt_curve_points =
      record {
        model = 711;
        body = 12;
        body_lo = 13;
        aps = codes "Over_frequency_Watt_Start_set";
        code = codes "CA";
        decode = λ hi lo. add (lit 50 0) (div (of_ℤ (pos (u32_of hi lo))) (lit 100 0));
      }
      ∷ record {
        model = 134;
        body = freq_watt_curve_body_hz1_off;
        body_lo = 0;
        aps = codes "Under_Frequency_Watt_Low_set";
        code = codes "DH";
        decode = centi_hz;
      }
      ∷ record {
        model = 134;
        body = freq_watt_curve_body_hz2_off;
        body_lo = 0;
        aps = codes "Under_Frequency_Watt_High_set";
        code = codes "DI";
        decode = centi_hz;
      }
      ∷ record {
        model = 134;
        body = freq_watt_curve_body_hz3_off;
        body_lo = 0;
        aps = codes "Over_frequency_Watt_Low_set";
        code = codes "CB";
        decode = centi_hz;
      }
      ∷ record {
        model = 134;
        body = freq_watt_curve_body_hz4_off;
        body_lo = 0;
        aps = codes "Over_frequency_Watt_High_set";
        code = codes "CC";
        decode = centi_hz;
      }
      ∷ []

  abbrev of_entry : FreqWattCurvePoint F → FwHzPoint
  of_entry pt = record { body = pt.body; aps = pt.aps; code = pt.code }

  -- The entries of Model 134 are the points that its writer applies.
  entries_of_writer : map of_entry (drop 1 freq_watt_curve_points) ≡ freq_watt_curve_hz_points
  entries_of_writer = refl
