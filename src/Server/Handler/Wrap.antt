-- ===== src/Server/Handler/Wrap.antt =====
-- Writes whose range ends at the top of the 16-bit address space, internal/server/server.go.
use apsystems_sunspec.Base.{
  ℕ, ◌+◌, ◌-◌, ◌<◌, ◌≤◌, ◌≡◌, ◌≢◌, refl, ◌∙◌, ap, true, false, some, none, List, ◌∷◌, length, ◌==◌,
  arith,
}
use apsystems_sunspec.Floats.{Floats}
use apsystems_sunspec.Config.{Net, allows_write}
use apsystems_sunspec.Source.Database.{Database}
use apsystems_sunspec.Source.Inverter.{NameplateTable}
use apsystems_sunspec.Source.Snapshot.{Snapshot}
use apsystems_sunspec.Sunspec.Bank.{Bank}
use apsystems_sunspec.Sunspec.Options.{Options}
use apsystems_sunspec.Server.ControlsWriter.{target_uids, controls_apply}
use apsystems_sunspec.Server.FindModel.{find_model_in_bank}
use apsystems_sunspec.Server.Handler.{
  written, Request, bank_for, ModelWriter, answer, try_models, Server, candidates, handle_write,
}
use apsystems_sunspec.Server.Handler.Routing.{
  HasRefreshed, controls_address, controls_address-le, unit_bank-addresses, write_to-bank,
}
use apsystems_sunspec.Server.Tracker.{WriteTracker}
use apsystems_sunspec.Server.Refresh.Units.{inverter_at, unit_bank, bank_for-build_banks}
use apsystems_sunspec.Server.World.{World, write_touches}

write_touches-before :
    (addr_offset : ℕ) (regs : List ℕ) (field_off : ℕ)
    → field_off < addr_offset
    → write_touches addr_offset regs field_off ≡ false
unfolding write_touches
write_touches-before addr_offset regs field_off h = ground arith

module _ {F : Type 0} (d : Database F) where
  -- Behind the last writable field, a write to Model 123 has no effect.
  controls_apply-behind :
      (snap : Snapshot F) (uid addr_offset : ℕ) (regs : List ℕ) (w : World d)
      → length (target_uids snap uid) ≢ 0
      → 7 < addr_offset
      → controls_apply d snap uid addr_offset regs w ≡ (none, w)
  unfolding controls_apply
  controls_apply-behind snap uid addr_offset regs w some_target behind =
      let n : (length (target_uids snap uid) == 0) ≡ false = ground (arith, some_target) in
      rw
        (
          n,
          write_touches-before addr_offset regs 7 behind,
          write_touches-before addr_offset regs 3 (omega arith),
          write_touches-before addr_offset regs 2 (omega arith),
        )
        refl

try_models-wrapped :
    {S : Type 0} (bank : Bank) (req : Request) (m : ModelWriter S) (ms : List (ModelWriter S))
    (s : S) (base : ℕ)
    → find_model_in_bank bank m.id ≡ some base
    → base + 2 + m.body_len < 65536
    → base + 2 ≤ req.addr
    → req.addr < 65536
    → req.addr + req.quantity ≡ 65536
    → try_models bank req (m ∷ ms) s ≡ answer (m.apply (req.addr - (base + 2)) req.args s)
unfolding try_models
try_models-wrapped bank req m ms s base at_ fits above below top = ground (arith, at_)

module _ (fl : Floats) (d : Database fl.F) (n : Net) where
  open fl use {F}

  try_models-top :
      (snap : Snapshot F) (bank : Bank) (a : ℕ) (req : Request) (w : World d)
      → find_model_in_bank bank 123 ≡ some a
      → a ≤ 40294
      → a + 10 ≤ req.addr
      → req.addr < 65536
      → req.addr + req.quantity ≡ 65536
      → length (target_uids snap req.unit_id) ≢ 0
      → try_models bank req (candidates fl d n snap req.unit_id) w ≡ (written, w)
  unfolding candidates
  try_models-top snap bank a req w at_ low above below top targets =
      try_models-wrapped bank req
        (record { id = 123; body_len = 24; apply = controls_apply d snap req.unit_id }) _ w a at_
        (omega arith) (omega arith) below top
      ∙ ap (answer {S = World d}) (
          controls_apply-behind d snap req.unit_id (req.addr - (a + 2)) req.args w targets
            (omega arith))

  -- After a refresh with at most 254 inverters, on a server with a writer, an allowed write whose
  -- range ends exactly at the top of the address space, and that starts ten registers or more
  -- behind the address of Model 123, is acknowledged and changes nothing, as long as the unit
  -- stands for an inverter: the end of the range wraps to 0 and passes the upper bound.
  pub handle_write-top :
      (tbl : NameplateTable) (s : Server fl d n) (snap : Snapshot F) (opt : Options)
      (wt : WriteTracker F) (req : Request) (w : World d)
      → HasRefreshed fl d n tbl s snap opt wt
      → length snap.inverters ≤ 254
      → allows_write n s.writes req.client_addr ≡ true
      → s.has_writer ≡ true
      → length (target_uids snap req.unit_id) ≢ 0
      → controls_address fl d n (inverter_at snap req.unit_id) + 10 ≤ req.addr
      → req.addr < 65536
      → req.addr + req.quantity ≡ 65536
      → handle_write fl d n s req w ≡ (written, w)
  unfolding handle_write
  handle_write-top tbl s snap opt wt req w fresh few allowed able targets above below top =
      let o = inverter_at snap req.unit_id in
      let bank = unit_bank fl tbl snap opt wt req.unit_id o in
      let at_bank : bank_for s.banks req.unit_id ≡ some bank =
        rw fresh.0 (bank_for-build_banks fl tbl snap opt wt req.unit_id few) in
      rw (allowed, able)
        (write_to-bank fl d n s bank snap req w at_bank fresh.1
          ∙ try_models-top snap bank (controls_address fl d n o) req w
              (unit_bank-addresses fl d n tbl snap opt wt req.unit_id o few).0
              (controls_address-le fl d n o) above below top targets)
