-- ===== src/Sunspec/Mppt.antt =====
-- Model 160, Multi-MPPT: emitMultiMPPT of internal/sunspec/encoder.go and emitPerInverterMPPT of
-- internal/sunspec/per_inverter.go.
use apsystems_sunspec.Base.{
  ℕ, ◌+◌, ◌*◌, ◌-◌, ◌<◌, ◌≤◌, ◌≡◌, refl, ◌&&◌, inl, inr, Bool-cases, List, [], ◌∷◌, ◌++◌, Str,
  codes, if◌then◌else◌, length, length-append, drop, get_elem?, Option, some, none, ltb, ◌==◌,
  arith,
}
use apsystems_sunspec.Base.Int.{ℤ, pos, negsuc, ltb_ℤ, leb_ℤ}
use apsystems_sunspec.Base.Word.{u16, u16_of_ℤ, i32_of_ℤ}
use apsystems_sunspec.Floats.{Floats}
use apsystems_sunspec.Source.Inverter.{Inverter, panel_powers, length-panel_powers-le}
use apsystems_sunspec.Source.Snapshot.{Snapshot}
use apsystems_sunspec.Sunspec.Bank.{
  acc32, put_string, scale_factor, not_impl_u16, not_impl_u32, clamp_i32,
}
use apsystems_sunspec.Sunspec.Chain.{Layout, HasLayout, HasLayout-nil, HasLayout-model}
use apsystems_sunspec.Sunspec.Events.{st_off, st_mppt}

abbrev pub multi_mppt_model_id : ℕ
multi_mppt_model_id = 160

abbrev pub multi_mppt_fixed_block_len : ℕ
multi_mppt_fixed_block_len = 8

abbrev pub multi_mppt_per_module_len : ℕ
multi_mppt_per_module_len = 20

-- uint16(int16(clampInt32(int32(t), -100, 200)))
unfoldable pub cabinet_temperature : ℤ → ℕ
cabinet_temperature t = u16_of_ℤ (clamp_i32 (i32_of_ℤ t) (negsuc 99) (pos 200))

-- uid[len(uid)-6:] of a longer one.
last_six : Str → Str
last_six uid = if ltb 6 (length uid) then drop (length uid - 6) uid else uid

suffix : ℕ → Option Str
suffix i =
    get_elem?
      (codes "A"
        ∷ codes "B"
        ∷ codes "C"
        ∷ codes "D"
        ∷ codes "E"
        ∷ codes "F"
        ∷ codes "G"
        ∷ codes "H"
        ∷ [])
      i

-- Channels are indices, and so not negative.
unfoldable pub panel_label : Str → ℕ → Str
unfolding last_six suffix
panel_label uid channel = elim (suffix channel) [
  | some letter ↦ last_six uid ++ codes "/" ++ letter
  | none ↦ last_six uid
]

pub record PanelEntry (F : Type 0) : Type 0 where
  pub inv : Inverter F
  pub channel : ℕ
  pub power_w : ℤ

-- The inner loop that appends an inverter's panels, from the channel `i` on.
unfoldable pub entries_of : {F : Type 0} → Inverter F → ℕ → List ℤ → List (PanelEntry F)
entries_of inv i [] = []
entries_of inv i (p ∷ ps) =
    record { inv = inv; channel = i; power_w = p } ∷ entries_of inv (i + 1) ps

unfoldable pub panels_of : {F : Type 0} → List (Inverter F) → List (PanelEntry F)
unfolding entries_of
panels_of [] = []
panels_of (inv ∷ invs) =
    (if inv.online then entries_of inv 0 (panel_powers inv) else []) ++ panels_of invs

-- No section without panels, else one model.
abbrev pub mppt_layout : {F : Type 0} → List (PanelEntry F) → Layout
mppt_layout es =
    if length es == 0
    then []
    else ((multi_mppt_model_id, multi_mppt_fixed_block_len + multi_mppt_per_module_len * length es)
        ∷ [])

module _ (fl : Floats) where
  open fl use {F, lit, lt, add, mul, div, of_ℤ, to_u16}

  panel_dca : Inverter F → ℤ → ℕ
  panel_dca inv p =
      if ltb_ℤ (pos 0) inv.ac_voltage_v && leb_ℤ (pos 0) p
      then (let amps10 = mul (div (of_ℤ p) (of_ℤ inv.ac_voltage_v)) (lit 10 0) in
          if lt amps10 (lit 65535 0) then to_u16 (add amps10 (lit 5 1)) else not_impl_u16)
      else not_impl_u16

  panel_dcv : Inverter F → ℕ
  panel_dcv inv =
      if ltb_ℤ (pos 0) inv.ac_voltage_v && ltb_ℤ inv.ac_voltage_v (pos 65535)
      then u16_of_ℤ inv.ac_voltage_v
      else not_impl_u16

  panel_dcw : ℤ → ℕ
  panel_dcw p = if leb_ℤ (pos 0) p && ltb_ℤ p (pos 65535) then u16_of_ℤ p else not_impl_u16

  -- The module at the index `i`.
  emit_panel : ℕ → PanelEntry F → List ℕ
  emit_panel i e =
      u16 (i + 1) ∷ put_string (panel_label e.inv.uid e.channel) 8
      ++ panel_dca e.inv e.power_w ∷ panel_dcv e.inv ∷ panel_dcw e.power_w ∷ acc32 0
      ++ acc32 not_impl_u32
      ++ cabinet_temperature e.inv.temperature_c
        ∷ (if ltb_ℤ (pos 0) e.power_w then st_mppt else st_off)
        ∷ acc32 not_impl_u32

  unfoldable pub emit_panels : ℕ → List (PanelEntry F) → List ℕ
  unfolding emit_panel panel_dca panel_dcv panel_dcw
  emit_panels i [] = []
  emit_panels i (e ∷ es) = emit_panel i e ++ emit_panels (i + 1) es

  mppt_fixed : ℕ → List ℕ
  mppt_fixed n =
      scale_factor (negsuc 0)
        ∷ scale_factor (pos 0)
        ∷ scale_factor (pos 0)
        ∷ scale_factor (pos 0)
        ∷ acc32 not_impl_u32
      ++ n ∷ not_impl_u16 ∷ []

  -- The section over the panels, which both emitters skip when there is none.
  unfoldable pub mppt_section : List (PanelEntry F) → List ℕ
  unfolding mppt_fixed
  mppt_section es =
      if length es == 0
      then []
      else (let n = u16 (length es) in
          multi_mppt_model_id
            ∷ u16 (multi_mppt_fixed_block_len + multi_mppt_per_module_len * n)
            ∷ mppt_fixed n
          ++ emit_panels 0 es)

  unfoldable pub emit_multi_mppt : Snapshot F → List ℕ
  emit_multi_mppt s = mppt_section (panels_of s.inverters)

  unfoldable pub emit_per_inverter_mppt : Inverter F → List ℕ
  emit_per_inverter_mppt inv = mppt_section (entries_of inv 0 (panel_powers inv))

  length-emit_panels :
      (i : ℕ) (es : List (PanelEntry F))
      → length (emit_panels i es) ≡ multi_mppt_per_module_len * length es
  unfolding emit_panels put_string
  length-emit_panels i [] = refl
  length-emit_panels i (e ∷ es) = omega (arith, length-emit_panels (i + 1) es)

  -- Up to 3276 panels the declared length does not wrap.
  pub mppt_section-HasLayout :
      (es : List (PanelEntry F)) → length es < 3277 → HasLayout (mppt_layout es) (mppt_section es)
  unfolding mppt_section
  mppt_section-HasLayout es few = elim (Bool-cases (length es == 0)) [
    | inl none_there ↦ rw none_there HasLayout-nil
    | inr some_there ↦
        let small : u16 (length es) ≡ length es = omega arith in
        let fits : u16 (multi_mppt_fixed_block_len + multi_mppt_per_module_len * length es)
            ≡ multi_mppt_fixed_block_len + multi_mppt_per_module_len * length es =
          omega arith in
        rw (some_there, small, fits)
          (HasLayout-model (
            mppt_fixed (length es) ++ emit_panels 0 es,
            omega (arith, length-emit_panels 0 es),
            refl,
          ))
  ]

length-entries_of :
    {F : Type 0} (inv : Inverter F) (i : ℕ) (ps : List ℤ) → length (entries_of inv i ps) ≡ length ps
unfolding entries_of
length-entries_of inv i [] = refl
length-entries_of inv i (p ∷ ps) = omega (arith, length-entries_of inv (i + 1) ps)

-- At most four modules an inverter.
pub length-panels_of-le :
    {F : Type 0} (invs : List (Inverter F)) → length (panels_of invs) ≤ 4 * length invs
unfolding panels_of
length-panels_of-le [] = omega arith
length-panels_of-le (inv ∷ invs) =
    let own = entries_of inv 0 (panel_powers inv) in
    ground (
      arith,
      length-append own (panels_of invs),
      length-entries_of inv 0 (panel_powers inv),
      length-panel_powers-le inv,
      length-panels_of-le invs,
    )

pub length-entries_of-le :
    {F : Type 0} (inv : Inverter F) → length (entries_of inv 0 (panel_powers inv)) ≤ 4
length-entries_of-le inv =
    omega (arith, length-entries_of inv 0 (panel_powers inv), length-panel_powers-le inv)
