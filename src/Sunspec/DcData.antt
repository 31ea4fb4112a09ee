-- ===== src/Sunspec/DcData.antt =====
-- internal/sunspec/inverter_float.go: Model 114, eight channels of DC data in float32.
use apsystems_sunspec.Base.{
  ℕ, zero, suc, ◌*◌, ◌/◌, ◌^◌, ◌≡◌, refl, Bool, true, List, [], ◌∷◌, ◌++◌, if◌then◌else◌, length,
  map, length-append, arith,
}
use apsystems_sunspec.Base.Int.{ℤ, pos, ltb_ℤ}
use apsystems_sunspec.Base.Word.{u16}
use apsystems_sunspec.Floats.{Floats}
use apsystems_sunspec.Source.Inverter.{Inverter, panel_powers}
use apsystems_sunspec.Source.Snapshot.{Snapshot}
use apsystems_sunspec.Sunspec.Chain.{IsModel}

abbrev pub dc_data_float_model_id : ℕ
dc_data_float_model_id = 114

abbrev pub dc_data_float_body_len : ℕ
dc_data_float_body_len = 48

abbrev pub dc_data_float_channels : ℕ
dc_data_float_channels = 8

module _ (fl : Floats) where
  open fl use {F, F32, f32_of_ℤ, f32_div, f32_pos, f32_bits}

  -- One of the eight channels of Model 114.
  pub record Channel : Type 0 where
    pub dcv : F32
    pub dca : F32
    pub dcw : F32

  channel_of : Inverter F → ℤ → Channel
  channel_of inv p =
      let live = ltb_ℤ (pos 0) inv.ac_voltage_v in
      record {
        dcv = if live then f32_of_ℤ inv.ac_voltage_v else f32_of_ℤ (pos 0);
        dca = if live then f32_div (f32_of_ℤ p) (f32_of_ℤ inv.ac_voltage_v) else f32_of_ℤ (pos 0);
        dcw = f32_of_ℤ p;
      }

  -- The two loops stop once eight channels are filled: the first eight panels are taken.
  unfoldable pub channels_of : List (Inverter F) → List Channel
  unfolding channel_of
  channels_of [] = []
  channels_of (inv ∷ invs) =
      (if inv.online then map (channel_of inv) (panel_powers inv) else []) ++ channels_of invs

  -- A field of the channels 1 to 8, the sentinel where there is no channel.
  unfoldable pub channel_regs : (Channel → F32) → ℕ → List Channel → List ℕ
  channel_regs f zero cs = []
  channel_regs f (suc n) [] = 0x7FC0 ∷ 0 ∷ channel_regs f n []
  channel_regs f (suc n) (c ∷ cs) =
      u16 (f32_bits (f c) / 2 ^ 16) ∷ u16 (f32_bits (f c)) ∷ channel_regs f n cs

  unfoldable pub dc_data_regs : List ℕ → List ℕ → List ℕ → List ℕ
  dc_data_regs v a w = dc_data_float_model_id ∷ dc_data_float_body_len ∷ v ++ (a ++ w)

  unfoldable pub emit_dc_data_float : Snapshot F → List ℕ
  unfolding channels_of channel_regs dc_data_regs
  emit_dc_data_float s =
      let cs = channels_of s.inverters in
      dc_data_regs (channel_regs (λ c. c.dcv) dc_data_float_channels cs)
        (channel_regs (λ c. c.dca) dc_data_float_channels cs)
        (channel_regs (λ c. c.dcw) dc_data_float_channels cs)

  -- A field of the channels 1 to 8 of one inverter, where `shown` holds and there is a panel.
  unfoldable pub panel_regs : Bool → (ℤ → F32) → ℕ → List ℤ → List ℕ
  panel_regs shown f zero ps = []
  panel_regs shown f (suc n) [] = 0x7FC0 ∷ 0 ∷ panel_regs shown f n []
  panel_regs shown f (suc n) (p ∷ ps) =
      (if shown then u16 (f32_bits (f p) / 2 ^ 16) else 0x7FC0)
      ∷ (if shown then u16 (f32_bits (f p)) else 0)
      ∷ panel_regs shown f n ps

  unfoldable pub emit_dc_data_float_per_inverter : Inverter F → List ℕ
  unfolding panel_regs dc_data_regs
  emit_dc_data_float_per_inverter inv =
      let powers = panel_powers inv in
      let dcv = f32_of_ℤ inv.ac_voltage_v in
      let has_dcv = f32_pos dcv in
      dc_data_regs (panel_regs has_dcv (λ p. dcv) dc_data_float_channels powers)
        (panel_regs has_dcv (λ p. f32_div (f32_of_ℤ p) dcv) dc_data_float_channels powers)
        (panel_regs true f32_of_ℤ dc_data_float_channels powers)

  length-channel_regs :
      (f : Channel → F32) (n : ℕ) (cs : List Channel) → length (channel_regs f n cs) ≡ 2 * n
  unfolding channel_regs
  length-channel_regs f zero cs = refl
  length-channel_regs f (suc n) [] = omega (arith, length-channel_regs f n [])
  length-channel_regs f (suc n) (c ∷ cs) = omega (arith, length-channel_regs f n cs)

  length-panel_regs :
      (shown : Bool) (f : ℤ → F32) (n : ℕ) (ps : List ℤ) → length (panel_regs shown f n ps) ≡ 2 * n
  unfolding panel_regs
  length-panel_regs shown f zero ps = refl
  length-panel_regs shown f (suc n) [] = omega (arith, length-panel_regs shown f n [])
  length-panel_regs shown f (suc n) (p ∷ ps) = omega (arith, length-panel_regs shown f n ps)

  dc_data_regs-IsModel :
      (v a w : List ℕ)
      → length v ≡ 16
      → length a ≡ 16
      → length w ≡ 16
      → IsModel dc_data_float_model_id dc_data_float_body_len (dc_data_regs v a w)
  unfolding dc_data_regs
  dc_data_regs-IsModel v a w lv la lw =
      (v ++ (a ++ w), omega (arith, length-append v (a ++ w), length-append a w), refl)

  pub emit_dc_data_float-IsModel :
      (s : Snapshot F)
      → IsModel dc_data_float_model_id dc_data_float_body_len (emit_dc_data_float s)
  unfolding emit_dc_data_float
  emit_dc_data_float-IsModel s =
      dc_data_regs-IsModel _ _ _ (length-channel_regs (λ c. c.dcv) 8 (channels_of s.inverters))
        (length-channel_regs (λ c. c.dca) 8 (channels_of s.inverters))
        (length-channel_regs (λ c. c.dcw) 8 (channels_of s.inverters))

  pub emit_dc_data_float_per_inverter-IsModel :
      (inv : Inverter F)
      → IsModel dc_data_float_model_id dc_data_float_body_len (emit_dc_data_float_per_inverter inv)
  unfolding emit_dc_data_float_per_inverter
  emit_dc_data_float_per_inverter-IsModel inv =
      let dcv = f32_of_ℤ inv.ac_voltage_v in
      dc_data_regs-IsModel _ _ _ (length-panel_regs (f32_pos dcv) (λ p. dcv) 8 (panel_powers inv))
        (length-panel_regs (f32_pos dcv) (λ p. f32_div (f32_of_ℤ p) dcv) 8 (panel_powers inv))
        (length-panel_regs true f32_of_ℤ 8 (panel_powers inv))
