-- ===== src/Sunspec/Encoder/Registers.antt =====
-- Where the registers of the inverter model stand in the aggregate bank of internal/sunspec/encoder.go.
use apsystems_sunspec.Base.{
  ℕ, suc, ◌+◌, ◌<◌, ◌≡◌, refl, sym, ap, Str, codes, ◌∙◌, List, ◌∷◌, ◌++◌, length, length-append,
  get_or, get_or-append, get_or-append_left, arith,
}
use apsystems_sunspec.Base.Int.{pos, negsuc}
use apsystems_sunspec.Base.Word.{u16_of_ℤ}
use apsystems_sunspec.Floats.{Floats}
use apsystems_sunspec.Source.Inverter.{NameplateTable}
use apsystems_sunspec.Source.Snapshot.{Snapshot}
use apsystems_sunspec.Sunspec.Bank.{at, clamp_i32}
use apsystems_sunspec.Sunspec.Bank.Reads.{at-get_or}
use apsystems_sunspec.Sunspec.Chain.{length-IsModel}
use apsystems_sunspec.Sunspec.Encoder.{
  common_regs, common_regs-IsModel, emit_common, emit_inverter, emit_inverter-IsModel, phase_of,
  encode_sections, encode,
}
use apsystems_sunspec.Sunspec.Events.{aggregate_operating_state}
use apsystems_sunspec.Sunspec.Options.{
  Options, str_or, default_manufacturer, default_model_name, serial_for,
}

-- A section after a marker of two registers and a first section of `n` registers.
second_section :
    (a b n j : ℕ) (xs ys rest tail : List ℕ)
    → length xs ≡ n
    → j < length ys
    → get_or (a ∷ b ∷ (xs ++ (ys ++ rest)) ++ tail) (suc (suc (n + j))) 0 ≡ get_or ys j 0
second_section a b n j xs ys rest tail e h =
    get_or-append_left (xs ++ (ys ++ rest)) tail (n + j) 0
      (omega (arith, e, h, length-append xs (ys ++ rest), length-append ys rest))
    ∙ ap (λ m. get_or (xs ++ (ys ++ rest)) (m + j) 0) (sym e)
    ∙ get_or-append xs (ys ++ rest) j 0
    ∙ get_or-append_left ys rest j 0 h

pub length-common_regs : (mn md vr sn : Str) (da : ℕ) → length (common_regs mn md vr sn da) ≡ 68
length-common_regs mn md vr sn da = length-IsModel (common_regs-IsModel mn md vr sn da)

module _ (fl : Floats) (tbl : NameplateTable) (s : Snapshot fl.F) (opt : Options) where
  encode-sections :
      (rest : List ℕ) × (tail : List ℕ) × ((encode fl tbl s opt).regs
        ≡ 0x5375
            ∷ 0x6E53
            ∷ (emit_common fl tbl s opt ++ (emit_inverter fl tbl s (phase_of s opt.phase) ++ rest))
          ++ tail)
  unfolding encode encode_sections
  encode-sections = (_, _, refl)

  length-emit_common : length (emit_common fl tbl s opt) ≡ 68
  unfolding emit_common
  length-emit_common =
      length-common_regs (str_or opt.manufacturer default_manufacturer)
        (str_or opt.model_name (str_or s.model_name default_model_name))
        (str_or s.firmware (codes "0")) (serial_for s opt) 1

  length-emit_inverter : length (emit_inverter fl tbl s (phase_of s opt.phase)) ≡ 52
  length-emit_inverter = length-IsModel (emit_inverter-IsModel fl tbl s (phase_of s opt.phase))

  pub encode-base : (encode fl tbl s opt).base ≡ 40000
  unfolding encode
  encode-base = refl

  pub long_enough : (j : ℕ) → j < 52 → suc (suc (68 + j)) < length (encode fl tbl s opt).regs
  long_enough j h =
      let (rest, tail, e) = encode-sections in
      omega (
        arith,
        h,
        ap length e,
        length-emit_common,
        length-emit_inverter,
        length-append (emit_inverter fl tbl s (phase_of s opt.phase)) rest,
        length-append (emit_common fl tbl s opt)
            (emit_inverter fl tbl s (phase_of s opt.phase) ++ rest),
        length-append
            (emit_common fl tbl s opt ++ (emit_inverter fl tbl s (phase_of s opt.phase) ++ rest))
            tail,
      )

  -- The register `j` of the inverter model.
  at-encode :
      (j : ℕ)
      → j < 52
      → at (encode fl tbl s opt) (40000 + suc (suc (68 + j)))
        ≡ get_or (emit_inverter fl tbl s (phase_of s opt.phase)) j 0
  at-encode j h =
      let (rest, tail, e) = encode-sections in
      let b = encode fl tbl s opt in
      let i = suc (suc (68 + j)) in
      ap (λ m. at b (m + i)) (sym encode-base)
      ∙ at-get_or b i (long_enough j h)
      ∙ ap (λ r. get_or r i 0) e
      ∙ second_section 0x5375 0x6E53 68 j _ _ rest tail length-emit_common
          (omega (arith, h, length-emit_inverter))

  -- The operating state and the power stand at 40108 and 40084.
  pub at-operating_state :
      at (encode fl tbl s opt) 40108
      ≡ aggregate_operating_state s.inverter_online_count s.system_power_w
  unfolding emit_inverter
  at-operating_state = at-encode 38 (omega arith)

  pub at-power :
      at (encode fl tbl s opt) 40084
      ≡ u16_of_ℤ (clamp_i32 s.system_power_w (negsuc 32759) (pos 32760))
  unfolding emit_inverter
  at-power = at-encode 14 (omega arith)
