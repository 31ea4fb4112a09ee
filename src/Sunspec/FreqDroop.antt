-- ===== src/Sunspec/FreqDroop.antt =====
-- internal/sunspec/freq_droop.go: Model 711, the over-frequency droop curve.
use apsystems_sunspec.Base.{
  ℕ, refl, Bool, ◌&&◌, ◌||◌, Option, some, none, List, [], ◌∷◌, ◌++◌, codes, if◌then◌else◌, drop,
  ◌==◌, false,
}
use apsystems_sunspec.Base.Int.{ℤ, pos, negsuc}
use apsystems_sunspec.Floats.{Floats}
use apsystems_sunspec.Source.Protection.{ProtectionParams}
use apsystems_sunspec.Sunspec.Bank.{acc32, scale_factor, not_impl_u32, not_impl_u16}
use apsystems_sunspec.Sunspec.Chain.{IsModel}

abbrev pub freq_droop_model_id : ℕ
freq_droop_model_id = 711

abbrev pub freq_droop_body_len : ℕ
freq_droop_body_len = 22

abbrev pub freq_droop_rslt_completed : ℕ
freq_droop_rslt_completed = 1

-- The modes 13 and 14 of Over_frequency_Watt_set are active.
abbrev pub is_int : ℤ → ℕ → Bool
is_int (pos n) k = n == k
is_int (negsuc n) k = false

-- An asynchronous result and the request counter.
abbrev pub WriteStatus : Type 0
WriteStatus = ℕ × ℕ

-- lookupWriteRslt over Options.WriteRslt, which may be nil.
unfoldable pub lookup_write_rslt : Option (ℕ → ℕ → WriteStatus) → ℕ → ℕ → WriteStatus
lookup_write_rslt none uid model_id = (freq_droop_rslt_completed, 0)
lookup_write_rslt (some f) uid model_id = f uid model_id

module _ (fl : Floats) where
  open fl use {F, lit, lt, add, sub, mul, to_u16, to_u32, to_int}

  unfoldable pub mode_active : F → Bool
  mode_active m = is_int (to_int m) 13 || is_int (to_int m) 14

  unfoldable pub droop_deadband : ProtectionParams F → ℕ
  droop_deadband p =
      if p.has (codes "DC") && lt (lit 50 0) p.of_droop_start
      then to_u32 (add (mul (sub p.of_droop_start (lit 50 0)) (lit 100 0)) (lit 5 1))
      else 0

  unfoldable pub droop_slope : ProtectionParams F → ℕ
  droop_slope p =
      if p.has (codes "DD") && lt (lit 0 0) p.of_droop_slope
      then (let v = add (mul p.of_droop_slope (lit 10 0)) (lit 5 1) in
          to_u16 (if lt (lit 65535 0) v then lit 65535 0 else v))
      else 0

  unfoldable pub emit_freq_droop : ProtectionParams F → WriteStatus → List ℕ
  emit_freq_droop p (rslt, req_counter) =
      freq_droop_model_id
        ∷ freq_droop_body_len
        ∷ (if mode_active p.of_droop_mode then 1 else 0)
        ∷ req_counter
        ∷ rslt
        ∷ 1
        ∷ acc32 0
      ++ acc32 not_impl_u32
      ++ 0
        ∷ scale_factor (negsuc 1)
        ∷ scale_factor (negsuc 0)
        ∷ scale_factor (pos 0)
        ∷ acc32 (droop_deadband p)
      ++ acc32 not_impl_u32
      ++ droop_slope p ∷ not_impl_u16 ∷ acc32 0
      ++ 0 ∷ 0 ∷ []

  pub emit_freq_droop-IsModel :
      (p : ProtectionParams F) (st : WriteStatus)
      → IsModel freq_droop_model_id freq_droop_body_len (emit_freq_droop p st)
  unfolding emit_freq_droop
  emit_freq_droop-IsModel p st = (drop 2 (emit_freq_droop p st), refl, refl)
