-- ===== src/Tests/Registers.antt =====
-- Banks and registers, on the test fleet.
use apsystems_sunspec.Base.{◌≤◌}
use apsystems_sunspec.Base.{◌≡◌, refl, List, [], ◌∷◌, codes, arith}
use apsystems_sunspec.Sunspec.Bank.{Bank, contains, slice, put_string}
use apsystems_sunspec.Sunspec.Bank.Reads.{slice-contained}
use apsystems_sunspec.Sunspec.Bank.Text.{bytes_of, padded, bytes_of-put_string}
use apsystems_sunspec.Sunspec.Controls.{aggregate_controls_state}
use apsystems_sunspec.Sunspec.Controls.Percent.{aggregate_controls_state-range}
use apsystems_sunspec.Sunspec.Chain.{Model, layout_of, chain}
use apsystems_sunspec.Sunspec.Encoder.{encode}
use apsystems_sunspec.Sunspec.Encoder.Layout.{aggregate_layout, encode-chain}
use apsystems_sunspec.Sunspec.PerInverter.{encode_per_inverter}
use apsystems_sunspec.Sunspec.PerInverter.Layout.{per_inverter_layout, encode_per_inverter-chain}
use apsystems_sunspec.Tests.Machine.{fixed_point}
use apsystems_sunspec.Tests.Fleet.{roof, roof_params, fleet, no_table, options}

abbrev small_bank : Bank
small_bank = record { regs = 0x5375 ∷ 0x6E53 ∷ 1 ∷ 2 ∷ 8 ∷ 9 ∷ 0xFFFF ∷ 0 ∷ []; base = 40000 }

slice-contained_example : slice small_bank 40002 2 ≡ 1 ∷ 2 ∷ []
unfolding contains
slice-contained_example = slice-contained small_bank 40002 2 refl (omega arith)

-- Five bytes in three registers.
bytes_of-put_string_example : bytes_of (put_string (codes "ECU-R") 3) ≡ padded 6 (codes "ECU-R")
bytes_of-put_string_example = bytes_of-put_string (codes "ECU-R") 3 (omega arith)

encode-chain_example :
    (ms : List Model) × (layout_of ms ≡ aggregate_layout fixed_point no_table fleet options)
    × (encode fixed_point no_table fleet options ≡ chain ms)
encode-chain_example = encode-chain fixed_point no_table fleet options (omega arith)

encode_per_inverter-chain_example :
    (ms : List Model) × (layout_of ms ≡ per_inverter_layout fixed_point no_table roof options)
    × (encode_per_inverter fixed_point no_table roof 2 options roof_params ≡ chain ms)
encode_per_inverter-chain_example =
    encode_per_inverter-chain fixed_point no_table roof 2 options roof_params

aggregate_controls_state-range_example :
    let c = aggregate_controls_state no_table fleet in (c.pct ≤ 100) × (c.ena ≡ 0) × (c.conn ≡ 1)
aggregate_controls_state-range_example =
    aggregate_controls_state-range no_table fleet (omega arith) (refl, (refl, tt))
