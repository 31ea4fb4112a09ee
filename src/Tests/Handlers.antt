-- ===== src/Tests/Handlers.antt =====
-- Requests to the server, the map of banks and the search for a model, on the test fleet.
use apsystems_sunspec.Base.{
  Str, ◌+◌, ◌≡◌, ◌≢◌, ◌↔◌, refl, true, some, [], ◌∷◌, codes, arith, lookup,
}
use apsystems_sunspec.Base.Word.{u16}
use apsystems_sunspec.Config.{allows_write, allows_write_iff, MayWrite, is_enabled, host_of}
use apsystems_sunspec.Sunspec.Chain.{chain, address_of, chain_regs, model_regs}
use apsystems_sunspec.Sunspec.Encoder.{encode}
use apsystems_sunspec.Sunspec.PerInverter.{encode_per_inverter}
use apsystems_sunspec.Server.Addresses.{ControlAddresses, find-encode, find-encode_per_inverter}
use apsystems_sunspec.Server.ControlsWriter.{controls_apply}
use apsystems_sunspec.Server.FindModel.{walk, walk_fuel, out_of_fuel, find_model_in_bank}
use apsystems_sunspec.Server.FindModel.Lookup.{find_model_in_bank-chain}
use apsystems_sunspec.Server.FindModel.Termination.{walk-walk_fuel}
use apsystems_sunspec.Server.Handler.{answer, bank_for, handle_write}
use apsystems_sunspec.Server.Handler.{written}
use apsystems_sunspec.Server.Handler.Wrap.{handle_write-top}
use apsystems_sunspec.Server.ControlsWriter.{target_uids}
use apsystems_sunspec.Server.World.{inverter_of_unit}
use apsystems_sunspec.Server.Handler.Routing.{handle_write-routed}
use apsystems_sunspec.Server.Refresh.{build_banks, tracked}
use apsystems_sunspec.Server.Tracker.{protection_at}
use apsystems_sunspec.Server.Refresh.Units.{bank_for-build_banks}
use apsystems_sunspec.Tests.Machine.{fixed_point, tables, flat_net}
use apsystems_sunspec.Tests.Fleet.{
  roof, shed, roof_params, fleet, no_table, options, world, writes_on, server, request_at,
}

-- 40 % for the unit 3, whose Model 123 has its WMaxLimPct at 40267.
handle_write-routed_example :
    handle_write fixed_point tables flat_net server (request_at 3 40267 1 (40 ∷ [])) world
    ≡ answer (controls_apply tables fleet 3 3 (40 ∷ []) world)
unfolding allows_write is_enabled host_of
handle_write-routed_example =
    handle_write-routed fixed_point tables flat_net no_table server fleet options []
      (request_at 3 40267 1 (40 ∷ [])) world (refl, refl) (omega arith) refl refl (omega arith)

-- The unit 2 is the first inverter.
bank_for-build_banks_example :
    bank_for (some (build_banks fixed_point no_table fleet options [])) 2
    ≡ some (
        encode_per_inverter fixed_point no_table roof 2
          (tracked fixed_point no_table options [])
          roof_params)
unfolding protection_at lookup
bank_for-build_banks_example =
    bank_for-build_banks fixed_point no_table fleet options [] 2 (omega arith)

find-encode_example :
    ControlAddresses (find_model_in_bank (encode fixed_point no_table fleet options)) 40294
find-encode_example = find-encode fixed_point no_table fleet options (omega arith)

find-encode_per_inverter_example :
    ControlAddresses
      (find_model_in_bank (encode_per_inverter fixed_point no_table shed 3 options roof_params))
      40262
find-encode_per_inverter_example =
    find-encode_per_inverter fixed_point no_table shed 3 options roof_params

-- A model of three registers, then one of two.
find_model_in_bank-chain_example :
    find_model_in_bank (chain ((1, 5 ∷ 6 ∷ 7 ∷ []) ∷ (123, 8 ∷ 9 ∷ []) ∷ [])) 123 ≡ some 40007
unfolding address_of chain_regs model_regs
find_model_in_bank-chain_example =
    find_model_in_bank-chain ((1, 5 ∷ 6 ∷ 7 ∷ []) ∷ (123, 8 ∷ 9 ∷ []) ∷ []) 123 (omega arith)
      (omega arith)

-- A length of 0xFFFE leads the walk back to where it stands.
walk-walk_fuel_example :
    walk walk_fuel
      (record { regs = 1 ∷ 2 ∷ 1 ∷ 0xFFFE ∷ 0 ∷ []; base = 40000 })
      123
      (u16 (40000 + 2))
      (u16 (40000 + u16 5))
    ≢ out_of_fuel
walk-walk_fuel_example =
    walk-walk_fuel (record { regs = 1 ∷ 2 ∷ 1 ∷ 0xFFFE ∷ 0 ∷ []; base = 40000 }) 123

allows_write_iff_example : (allows_write flat_net writes_on (codes "10.0.0.7") ≡ true) ↔ (
    (is_enabled writes_on ≡ true)
    × ((ip : Str) × (some (codes "10.0.0.7") ≡ some ip) × MayWrite flat_net writes_on ip))
unfolding host_of
allows_write_iff_example = allows_write_iff flat_net writes_on (codes "10.0.0.7")

-- One register at the address 65535.
handle_write-top_example :
    handle_write fixed_point tables flat_net server (request_at 3 65535 1 (1 ∷ [])) world
    ≡ (written, world)
unfolding allows_write is_enabled host_of target_uids inverter_of_unit
handle_write-top_example =
    handle_write-top fixed_point tables flat_net no_table server fleet options []
      (request_at 3 65535 1 (1 ∷ [])) world (refl, refl) (omega arith) refl refl (omega arith)
      (omega arith) (omega arith) refl
