-- ===== src/Sunspec/EnterService.antt =====
-- internal/sunspec/enter_service.go: Model 703, the reconnect window.
use apsystems_sunspec.Base.{ℕ, refl, List, [], ◌∷◌, ◌++◌, codes, if◌then◌else◌, drop}
use apsystems_sunspec.Base.Int.{negsuc}
use apsystems_sunspec.Floats.{Floats}
use apsystems_sunspec.Source.Protection.{ProtectionParams}
use apsystems_sunspec.Sunspec.Bank.{acc32, scale_factor, not_impl_u32}
use apsystems_sunspec.Sunspec.Chain.{IsModel}
use apsystems_sunspec.Sunspec.DerTrip.{v_default, pct_of_v_nom, hz_centi}

abbrev pub enter_service_model_id : ℕ
enter_service_model_id = 703

abbrev pub enter_service_body_len : ℕ
enter_service_body_len = 17

module _ (fl : Floats) where
  open fl use {F, lit, le, add, to_u32}

  unfoldable pub emit_enter_service : ProtectionParams F → F → List ℕ
  emit_enter_service p v_nom =
      let nominal = if le v_nom (lit 0 0) then v_default fl else v_nom in
      enter_service_model_id
        ∷ enter_service_body_len
        ∷ (if p.has (codes "AG") then 1 else 0)
        ∷ pct_of_v_nom fl p.reconn_v_hi nominal
        ∷ pct_of_v_nom fl p.reconn_v_low nominal
        ∷ acc32 (hz_centi fl p.reconn_f_hi)
      ++ acc32 (hz_centi fl p.reconn_f_low)
      ++ acc32 (to_u32 (add p.reconnect_s (lit 5 1)))
      ++ acc32 0
      ++ acc32 0
      ++ acc32 not_impl_u32
      ++ scale_factor (negsuc 1) ∷ scale_factor (negsuc 1) ∷ []

  pub emit_enter_service-IsModel :
      (p : ProtectionParams F) (v_nom : F)
      → IsModel enter_service_model_id enter_service_body_len (emit_enter_service p v_nom)
  unfolding emit_enter_service
  emit_enter_service-IsModel p v_nom = (drop 2 (emit_enter_service p v_nom), refl, refl)
