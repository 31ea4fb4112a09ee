-- ===== src/Sunspec/PerInverter/Registers.antt =====
-- Where the registers of Model 123 stand in the bank of one inverter, internal/sunspec/per_inverter.go.
use apsystems_sunspec.Base.{
  ℕ, suc, ◌+◌, ◌<◌, ◌≡◌, refl, sym, ap, ◌∙◌, List, ◌∷◌, ◌++◌, length, length-append, get_or,
  get_or-append, get_or-append_left, arith,
}
use apsystems_sunspec.Floats.{Floats}
use apsystems_sunspec.Source.Inverter.{Inverter, NameplateTable}
use apsystems_sunspec.Source.Protection.{ProtectionParams}
use apsystems_sunspec.Sunspec.Bank.{Bank, at}
use apsystems_sunspec.Sunspec.Bank.Reads.{at-get_or}
use apsystems_sunspec.Sunspec.Chain.{length-IsModel}
use apsystems_sunspec.Sunspec.Controls.{
  emit_controls, emit_controls-IsModel, per_inverter_controls_state,
}
use apsystems_sunspec.Sunspec.DcData.{
  emit_dc_data_float_per_inverter, emit_dc_data_float_per_inverter-IsModel,
}
use apsystems_sunspec.Sunspec.Encoder.Registers.{length-common_regs}
use apsystems_sunspec.Sunspec.InverterFloat.{
  emit_inverter_float_per_inverter, emit_inverter_float_per_inverter-IsModel,
}
use apsystems_sunspec.Sunspec.Nameplate.{
  emit_nameplate_per_inverter, emit_nameplate_per_inverter-IsModel,
}
use apsystems_sunspec.Sunspec.Options.{Options}
use apsystems_sunspec.Sunspec.PerInverter.{
  emit_common_per_inverter, emit_single_phase, emit_single_phase-IsModel, per_inverter_sections,
  encode_per_inverter,
}

-- Past a section of `n` registers.
get_or-section :
    (n : ℕ) (xs ys : List ℕ) (i : ℕ) → length xs ≡ n → get_or (xs ++ ys) (n + i) 0 ≡ get_or ys i 0
get_or-section n xs ys i e = ap (λ m. get_or (xs ++ ys) (m + i) 0) (sym e) ∙ get_or-append xs ys i 0

-- Six sections, the first five of known lengths.
module _ (s1 s2 s3 s4 s5 s6 rest : List ℕ) (e1 : length s1 ≡ 68) (e2 : length s2 ≡ 52)
    (e3 : length s3 ≡ 62) (e4 : length s4 ≡ 50) (e5 : length s5 ≡ 28) where
  abbrev six : List ℕ
  six = s1 ++ (s2 ++ (s3 ++ (s4 ++ (s5 ++ (s6 ++ rest)))))

  six-length : (j : ℕ) → j < length s6 → 260 + j < length six
  six-length j h = omega (
    arith,
    length-append s1 (s2 ++ (s3 ++ (s4 ++ (s5 ++ (s6 ++ rest))))),
    length-append s2 (s3 ++ (s4 ++ (s5 ++ (s6 ++ rest)))),
    length-append s3 (s4 ++ (s5 ++ (s6 ++ rest))),
    length-append s4 (s5 ++ (s6 ++ rest)),
    length-append s5 (s6 ++ rest),
    length-append s6 rest,
  )

  get_or-six : (j : ℕ) → j < length s6 → get_or six (260 + j) 0 ≡ get_or s6 j 0
  get_or-six j h =
      ap (λ i. get_or six i 0) (omega arith)
      ∙ get_or-section 68 s1 _ (52 + (62 + (50 + (28 + j)))) e1
      ∙ get_or-section 52 s2 _ (62 + (50 + (28 + j))) e2
      ∙ get_or-section 62 s3 _ (50 + (28 + j)) e3
      ∙ get_or-section 50 s4 _ (28 + j) e4
      ∙ get_or-section 28 s5 _ j e5
      ∙ get_or-append_left s6 rest j 0 h

  -- They stand after a marker of two registers.
  sixth_section :
      (a b j : ℕ) (tail : List ℕ)
      → j < length s6
      → (262 + j < length (a ∷ b ∷ six ++ tail))
        × (get_or (a ∷ b ∷ six ++ tail) (262 + j) 0 ≡ get_or s6 j 0)
  sixth_section a b j tail h =
      let room = six-length j h in
      let past : 262 + j ≡ suc (suc (260 + j)) = omega arith in
      (
        omega (arith, room, length-append six tail),
        ap (λ i. get_or (a ∷ b ∷ six ++ tail) i 0) past
            ∙ get_or-append_left six tail (260 + j) 0 room
            ∙ get_or-six j h,
      )

module _ (fl : Floats) (tbl : NameplateTable) (inv : Inverter fl.F) (unit_id : ℕ) (opt : Options)
    (prot : ProtectionParams fl.F) where
  sections-controls :
      (rest : List ℕ) × (tail : List ℕ) × ((encode_per_inverter fl tbl inv unit_id opt prot).regs
        ≡ 0x5375
            ∷ 0x6E53
            ∷ (emit_common_per_inverter fl tbl inv unit_id opt
                ++ (emit_single_phase fl tbl inv
                    ++ (emit_inverter_float_per_inverter fl inv
                        ++ (emit_dc_data_float_per_inverter fl inv
                            ++ (emit_nameplate_per_inverter fl tbl inv
                                ++ (emit_controls (per_inverter_controls_state tbl inv)
                                    ++ rest))))))
          ++ tail)
  unfolding encode_per_inverter per_inverter_sections
  sections-controls = (_, _, refl)

  length-sections :
      (length (emit_common_per_inverter fl tbl inv unit_id opt) ≡ 68)
      × (length (emit_single_phase fl tbl inv) ≡ 52)
      × (length (emit_inverter_float_per_inverter fl inv) ≡ 62)
      × (length (emit_dc_data_float_per_inverter fl inv) ≡ 50)
      × (length (emit_nameplate_per_inverter fl tbl inv) ≡ 28)
  unfolding emit_common_per_inverter
  length-sections = (
    length-common_regs _ _ _ _ unit_id,
    length-IsModel (emit_single_phase-IsModel fl tbl inv),
    length-IsModel (emit_inverter_float_per_inverter-IsModel fl inv),
    length-IsModel (emit_dc_data_float_per_inverter-IsModel fl inv),
    length-IsModel (emit_nameplate_per_inverter-IsModel fl tbl inv),
  )

  pub encode_per_inverter-base : (encode_per_inverter fl tbl inv unit_id opt prot).base ≡ 40000
  unfolding encode_per_inverter
  encode_per_inverter-base = refl

  abbrev own_bank : Bank
  own_bank = encode_per_inverter fl tbl inv unit_id opt prot

  -- The register `j` of Model 123, whose identifier stands at 40262.
  pub at-controls :
      (j : ℕ)
      → j < 26
      → (262 + j < length own_bank.regs)
        × (at own_bank (40000 + (262 + j))
            ≡ get_or (emit_controls (per_inverter_controls_state tbl inv)) j 0)
  at-controls j h =
      let (rest, tail, e) = sections-controls in
      let (e1, e2, e3, e4, e5) = length-sections in
      let c = emit_controls (per_inverter_controls_state tbl inv) in
      let six_of = length-IsModel (emit_controls-IsModel (per_inverter_controls_state tbl inv)) in
      let (room, there) =
        sixth_section _ _ _ _ _ c rest e1 e2 e3 e4 e5 0x5375 0x6E53 j tail
          (omega (arith, h, six_of)) in
      let room' : 262 + j < length own_bank.regs = omega (arith, room, ap length e) in
      (
        room',
        ap (λ m. at own_bank (m + (262 + j))) (sym encode_per_inverter-base)
            ∙ at-get_or own_bank (262 + j) room'
            ∙ ap (λ r. get_or r (262 + j) 0) e
            ∙ there,
      )
