-- ===== src/Server/Addresses.antt =====
-- Where the write handler of internal/server/server.go finds the writable models of the banks that
-- internal/sunspec encodes.
use apsystems_sunspec.Base.{
  ℕ, ◌+◌, ◌*◌, ◌≤◌, ◌<◌, ◌≡◌, ◌≢◌, refl, ◌∙◌, Bool, true, false, inl, inr, Bool-cases, Option, some,
  List, [], ◌∷◌, ◌++◌, length, length-append, ◌==◌, if◌then◌else◌, arith, All-append,
}
use apsystems_sunspec.Floats.{Floats}
use apsystems_sunspec.Source.Inverter.{Inverter, NameplateTable, panel_powers}
use apsystems_sunspec.Source.Protection.{ProtectionParams}
use apsystems_sunspec.Source.Snapshot.{Snapshot}
use apsystems_sunspec.Sunspec.Bank.{Bank, base_register, end_model_id}
use apsystems_sunspec.Sunspec.Chain.{
  Model, model_regs, chain_regs, chain, Layout, layout_of, layout_address, layout_size,
  layout_size-append, length-model_regs, IsOpenLayout, layout-IsOpen, address_of-layout,
}
use apsystems_sunspec.Sunspec.Options.{Options}
use apsystems_sunspec.Sunspec.Phases.{PhaseMode, phase_split, phase_three, model_id}
use apsystems_sunspec.Sunspec.Mppt.{
  PanelEntry, panels_of, length-panels_of-le, entries_of, length-entries_of-le,
}
use apsystems_sunspec.Sunspec.Vendor.{vendor_layout}
use apsystems_sunspec.Sunspec.Encoder.{encode, phase_of}
use apsystems_sunspec.Sunspec.Encoder.Layout.{
  control_layout, aggregate_head, optional_mppt, aggregate_layout, encode-chain,
}
use apsystems_sunspec.Sunspec.PerInverter.{encode_per_inverter}
use apsystems_sunspec.Sunspec.PerInverter.Layout.{
  per_inverter_head, per_inverter_layout, encode_per_inverter-chain,
}
use apsystems_sunspec.Server.FindModel.{find_model_in_bank}
use apsystems_sunspec.Server.FindModel.Lookup.{find_model_in_bank-chain}

-- A bank whose layout is known answers the search from its layout.
find-layout :
    (bank : Bank) (ls : Layout) (id : ℕ)
    → (ms : List Model) × (layout_of ms ≡ ls) × (bank ≡ chain ms)
    → IsOpenLayout ls
    → layout_size ls < 25532
    → find_model_in_bank bank id ≡ layout_address id ls (base_register + 2)
unfolding chain_regs
find-layout bank ls id (ms, lay, e) open_ fits =
    let len = length-append (model_regs ms) (end_model_id ∷ 0 ∷ []) in
    let size : layout_size (layout_of ms) < 25532 = rw lay fits in
    rw e (
      find_model_in_bank-chain ms id (layout-IsOpen ms (rw lay open_))
        (omega (arith, len, length-model_regs ms))
      ∙ rw (address_of-layout id ms (base_register + 2), lay) refl)

-- An optional section, absent when a count is 0.
only : ℕ → ℕ → ℕ → Layout
only n id k = if n == 0 then [] else ((id, k) ∷ [])

only-IsOpen : (n id k : ℕ) → id ≢ end_model_id → IsOpenLayout (only n id k)
unfolding only
only-IsOpen n id k h = elim (Bool-cases (n == 0)) [ inl e ↦ rw e tt | inr e ↦ rw e (h, tt) ]

only-size : (n id k : ℕ) → layout_size (only n id k) ≤ 2 + k
unfolding only
only-size n id k = ground arith

optional_mppt-IsOpen :
    {F : Type 0} (off : Bool) (es : List (PanelEntry F)) → IsOpenLayout (optional_mppt off es)
unfolding only
optional_mppt-IsOpen true es = tt
optional_mppt-IsOpen false es = only-IsOpen (length es) 160 (8 + 20 * length es) (λ e. omega arith)

optional_mppt-size :
    {F : Type 0} (off : Bool) (es : List (PanelEntry F))
    → layout_size (optional_mppt off es) ≤ 10 + 20 * length es
unfolding only
optional_mppt-size true es = omega arith
optional_mppt-size false es = omega (arith, only-size (length es) 160 (8 + 20 * length es))

-- The four writable models.
abbrev pub ControlAddresses : (ℕ → Option ℕ) → ℕ → Type 0
ControlAddresses find a =
    (find 123 ≡ some a)
    × (find 703 ≡ some (a + 204))
    × (find 711 ≡ some (a + 223))
    × (find 134 ≡ some (a + 247))

aggregate_address :
    (phase : PhaseMode) (rest : Layout)
    → ControlAddresses
        (λ id. layout_address id (aggregate_head phase ++ (control_layout ++ rest)) 40002)
        40294
unfolding model_id
aggregate_address phase_split rest = (refl, refl, refl, refl)
aggregate_address phase_three rest = (refl, refl, refl, refl)
aggregate_address _ rest = (refl, refl, refl, refl)

aggregate_head-IsOpen : (phase : PhaseMode) → IsOpenLayout (aggregate_head phase)
unfolding model_id
aggregate_head-IsOpen phase_split = omega arith
aggregate_head-IsOpen phase_three = omega arith
aggregate_head-IsOpen _ = omega arith

open_append : (ls ks : Layout) → IsOpenLayout ls → IsOpenLayout ks → IsOpenLayout (ls ++ ks)
open_append ls ks h k = All-append (λ l. l.0 ≢ end_model_id) ls ks h k

module _ (fl : Floats) (tbl : NameplateTable) where
  open fl use {F}

  rest_layout : Snapshot F → Options → Layout
  rest_layout s opt = optional_mppt opt.disable_mppt (panels_of s.inverters) ++ vendor_layout tbl s

  rest_layout-IsOpen : (s : Snapshot F) (opt : Options) → IsOpenLayout (rest_layout s opt)
  unfolding rest_layout only
  rest_layout-IsOpen s opt =
      open_append (optional_mppt opt.disable_mppt (panels_of s.inverters)) (vendor_layout tbl s)
        (optional_mppt-IsOpen opt.disable_mppt (panels_of s.inverters))
        (only-IsOpen (length s.inverters) 64202 (16 + 10 * length s.inverters) (λ e. omega arith))

  aggregate_layout-size :
      (s : Snapshot F) (opt : Options)
      → length s.inverters ≤ 254
      → layout_size (aggregate_layout fl tbl s opt) < 25532
  unfolding only
  aggregate_layout-size s opt few = omega (
    arith,
    layout_size-append (optional_mppt opt.disable_mppt (panels_of s.inverters))
        (vendor_layout tbl s),
    optional_mppt-size opt.disable_mppt (panels_of s.inverters),
    length-panels_of-le s.inverters,
    only-size (length s.inverters) 64202 (16 + 10 * length s.inverters),
  )

  find-aggregate :
      (s : Snapshot F) (opt : Options) (id : ℕ)
      → length s.inverters ≤ 254
      → find_model_in_bank (encode fl tbl s opt) id
        ≡ layout_address id (aggregate_layout fl tbl s opt) 40002
  unfolding rest_layout
  find-aggregate s opt id few =
      let phase = phase_of s opt.phase in
      find-layout _ (aggregate_layout fl tbl s opt) id (encode-chain fl tbl s opt few)
        (open_append (aggregate_head phase) (control_layout ++ rest_layout s opt)
          (aggregate_head-IsOpen phase)
          (open_append control_layout (rest_layout s opt) (omega arith) (rest_layout-IsOpen s opt)))
        (aggregate_layout-size s opt few)

  -- In the aggregate bank of a fleet of at most 254 inverters, whatever the phase mode and the
  -- options, the search finds Model 123 at 40294, 703 at 40498, 711 at 40517 and 134 at 40541.
  pub find-encode :
      (s : Snapshot F) (opt : Options)
      → length s.inverters ≤ 254
      → ControlAddresses (find_model_in_bank (encode fl tbl s opt)) 40294
  unfolding rest_layout
  find-encode s opt few =
      let at_ = aggregate_address (phase_of s opt.phase) (rest_layout s opt) in
      (
        find-aggregate s opt 123 few ∙ at_.0,
        find-aggregate s opt 703 few ∙ at_.1,
        find-aggregate s opt 711 few ∙ at_.2,
        find-aggregate s opt 134 few ∙ at_.3,
      )

  find-per_inverter :
      (inv : Inverter F) (unit_id : ℕ) (opt : Options) (prot : ProtectionParams F) (id : ℕ)
      → find_model_in_bank (encode_per_inverter fl tbl inv unit_id opt prot) id
        ≡ layout_address id (per_inverter_layout fl tbl inv opt) 40002
  find-per_inverter inv unit_id opt prot id =
      let panels = entries_of inv 0 (panel_powers inv) in
      let mppt = optional_mppt opt.disable_mppt panels in
      find-layout _ (per_inverter_layout fl tbl inv opt) id
        (encode_per_inverter-chain fl tbl inv unit_id opt prot)
        (open_append per_inverter_head (control_layout ++ mppt) (omega arith) (
          open_append control_layout mppt (omega arith)
            (optional_mppt-IsOpen opt.disable_mppt panels)))
        (omega (arith, optional_mppt-size opt.disable_mppt panels, length-entries_of-le inv))

  -- In the bank of one inverter, which has no Model 121, the search finds Model 123 at 40262, 703 at
  -- 40466, 711 at 40485 and 134 at 40509.
  pub find-encode_per_inverter :
      (inv : Inverter F) (unit_id : ℕ) (opt : Options) (prot : ProtectionParams F)
      → ControlAddresses
          (find_model_in_bank (encode_per_inverter fl tbl inv unit_id opt prot))
          40262
  find-encode_per_inverter inv unit_id opt prot = (
    find-per_inverter inv unit_id opt prot 123,
    find-per_inverter inv unit_id opt prot 703,
    find-per_inverter inv unit_id opt prot 711,
    find-per_inverter inv unit_id opt prot 134,
  )
