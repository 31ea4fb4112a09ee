-- ===== src/Server/Handler/Routing.antt =====
-- Which writer a write reaches, internal/server/server.go.
use apsystems_sunspec.Base.{
  ℕ, ◌+◌, ◌-◌, ◌<◌, ◌≤◌, ◌≡◌, ◌↔◌, ◌⊎◌, refl, ◌∙◌, Bool, true, false, ◌&&◌, Option, some, none,
  List, [], ◌∷◌, length, leb, if◌then◌else◌, arith,
}
use apsystems_sunspec.Floats.{Floats}
use apsystems_sunspec.Config.{Net, allows_write}
use apsystems_sunspec.Source.Database.{Database}
use apsystems_sunspec.Source.Inverter.{Inverter, NameplateTable}
use apsystems_sunspec.Source.Snapshot.{Snapshot}
use apsystems_sunspec.Sunspec.Bank.{Bank}
use apsystems_sunspec.Sunspec.Options.{Options}
use apsystems_sunspec.Server.Addresses.{ControlAddresses, find-encode, find-encode_per_inverter}
use apsystems_sunspec.Server.ControlsWriter.{controls_apply}
use apsystems_sunspec.Server.EnterServiceWriter.{enter_service_apply}
use apsystems_sunspec.Server.FindModel.{find_model_in_bank}
use apsystems_sunspec.Server.FreqDroopWriter.{freq_droop_apply}
use apsystems_sunspec.Server.FreqWattCurveWriter.{freq_watt_curve_apply}
use apsystems_sunspec.Server.Handler.{
  illegal_function, illegal_data_address, Response, refused, Request, bank_for, ModelWriter, answer,
  try_models, Server, candidates, write_to, handle_write,
}
use apsystems_sunspec.Server.Tracker.{WriteTracker}
use apsystems_sunspec.Server.Refresh.{build_banks}
use apsystems_sunspec.Server.Refresh.Units.{inverter_at, unit_bank, bank_for-build_banks}
use apsystems_sunspec.Server.World.{World}

-- The registers of a request lie in the body of a model that stands at `base`.
abbrev pub within : ℕ → ℕ → Request → Bool
within base body_len req =
    leb (base + 2) req.addr && leb (req.addr + req.quantity) (base + 2 + body_len)

try_models-nil :
    {S : Type 0} (bank : Bank) (req : Request) (s : S)
    → try_models bank req [] s ≡ (refused illegal_data_address, s)
unfolding try_models
try_models-nil bank req s = refl

try_models-cons :
    {S : Type 0} (bank : Bank) (req : Request) (m : ModelWriter S) (ms : List (ModelWriter S))
    (s : S) (base : ℕ) (rest : Response × S)
    → find_model_in_bank bank m.id ≡ some base
    → base + 2 + m.body_len < 65536
    → req.addr + req.quantity < 65536
    → try_models bank req ms s ≡ rest
    → try_models bank req (m ∷ ms) s ≡ (
        if within base m.body_len req
        then answer (m.apply (req.addr - (base + 2)) req.args s)
        else rest)
unfolding try_models
try_models-cons bank req m ms s base rest at_ fits top tail = ground (arith, at_, tail)

module _ (fl : Floats) (d : Database fl.F) (n : Net) where
  open fl use {F}

  -- The four writable models of a bank whose Model 123 stands at `a`.
  abbrev pub routed : Snapshot F → ℕ → Request → World d → Response × World d
  routed snap a req w =
      if within a 24 req
      then answer (controls_apply d snap req.unit_id (req.addr - (a + 2)) req.args w)
      else if within (a + 204) 17 req
      then answer (enter_service_apply fl d snap req.unit_id (req.addr - (a + 204 + 2)) req.args w)
      else if within (a + 223) 22 req
      then answer (freq_droop_apply fl d snap req.unit_id (req.addr - (a + 223 + 2)) req.args w)
      else if within (a + 247) 68 req
      then answer
          (freq_watt_curve_apply fl d snap req.unit_id (req.addr - (a + 247 + 2)) req.args w)
      else (refused illegal_data_address, w)

  try_models-routed :
      (snap : Snapshot F) (bank : Bank) (a : ℕ) (req : Request) (w : World d)
      → ControlAddresses (find_model_in_bank bank) a
      → a + 317 < 65536
      → req.addr + req.quantity < 65536
      → try_models bank req (candidates fl d n snap req.unit_id) w ≡ routed snap a req w
  unfolding candidates
  try_models-routed snap bank a req w at_ fits top =
      try_models-cons bank req
        (record { id = 123; body_len = 24; apply = controls_apply d snap req.unit_id }) _ w a _
        at_.0 (omega arith) top
        (try_models-cons bank req
          (record { id = 703; body_len = 17; apply = enter_service_apply fl d snap req.unit_id }) _
          w (a + 204) _ at_.1 (omega arith) top
          (try_models-cons bank req
            (record { id = 711; body_len = 22; apply = freq_droop_apply fl d snap req.unit_id }) _ w
            (a + 223) _ at_.2 (omega arith) top
            (try_models-cons bank req
              (record {
                id = 134;
                body_len = 68;
                apply = freq_watt_curve_apply fl d snap req.unit_id;
              })
              [] w (a + 247) _ at_.3 (omega arith) top (try_models-nil bank req w))))

  -- Where Model 123 stands in the bank of a unit, from the inverter that it stands for.
  abbrev pub controls_address : Option (Inverter F) → ℕ
  controls_address none = 40294
  controls_address (some inv) = 40262

  -- The server that a refresh with this snapshot leaves behind.
  abbrev pub HasRefreshed :
      NameplateTable → Server fl d n → Snapshot F → Options → WriteTracker F → Type 0
  HasRefreshed tbl s snap opt wt =
      (s.banks ≡ some (build_banks fl tbl snap opt wt)) × (s.snap ≡ some snap)

  pub unit_bank-addresses :
      (tbl : NameplateTable) (snap : Snapshot F) (opt : Options) (wt : WriteTracker F) (uid : ℕ)
      (o : Option (Inverter F))
      → length snap.inverters ≤ 254
      → ControlAddresses
          (find_model_in_bank (unit_bank fl tbl snap opt wt uid o))
          (controls_address o)
  unit_bank-addresses tbl snap opt wt uid none few = find-encode fl tbl snap _ few
  unit_bank-addresses tbl snap opt wt uid (some inv) few =
      find-encode_per_inverter fl tbl inv uid _ _

  pub controls_address-le : (o : Option (Inverter F)) → controls_address o ≤ 40294
  controls_address-le none = omega arith
  controls_address-le (some inv) = omega arith

  pub write_to-bank :
      (s : Server fl d n) (bank : Bank) (snap : Snapshot F) (req : Request) (w : World d)
      → bank_for s.banks req.unit_id ≡ some bank
      → s.snap ≡ some snap
      → write_to fl d n s req w ≡ try_models bank req (candidates fl d n snap req.unit_id) w
  unfolding write_to
  write_to-bank s bank snap req w at_bank at_snap = ground (arith, at_bank, at_snap)

  -- After a refresh with at most 254 inverters, on a server with a writer, an allowed write whose
  -- range ends below the top of the address space is applied by the model whose body contains the
  -- whole range, at its offset in that body, whether the unit is an inverter's or the aggregate;
  -- and a write that no writable body contains is refused with an illegal data address and changes
  -- nothing.
  pub handle_write-routed :
      (tbl : NameplateTable) (s : Server fl d n) (snap : Snapshot F) (opt : Options)
      (wt : WriteTracker F) (req : Request) (w : World d)
      → HasRefreshed tbl s snap opt wt
      → length snap.inverters ≤ 254
      → allows_write n s.writes req.client_addr ≡ true
      → s.has_writer ≡ true
      → req.addr + req.quantity < 65536
      → handle_write fl d n s req w
        ≡ routed snap (controls_address (inverter_at snap req.unit_id)) req w
  unfolding handle_write
  handle_write-routed tbl s snap opt wt req w fresh few allowed able top =
      let bank = unit_bank fl tbl snap opt wt req.unit_id (inverter_at snap req.unit_id) in
      let at_bank : bank_for s.banks req.unit_id ≡ some bank =
        rw fresh.0 (bank_for-build_banks fl tbl snap opt wt req.unit_id few) in
      rw (allowed, able)
        (write_to-bank s bank snap req w at_bank fresh.1
          ∙ try_models-routed snap bank (controls_address (inverter_at snap req.unit_id)) req w
              (unit_bank-addresses tbl snap opt wt req.unit_id (inverter_at snap req.unit_id) few)
              (omega (arith, controls_address-le (inverter_at snap req.unit_id))) top)

  -- A write is refused as an illegal function exactly when the configuration does not allow its
  -- client or the server has no writer.
  pub handle_write-refuses :
      (s : Server fl d n) (req : Request) (w : World d)
      → ((handle_write fl d n s req w).0 ≡ refused illegal_function)
        ↔ ((allows_write n s.writes req.client_addr ≡ false) ⊎ (s.has_writer ≡ false))
  unfolding handle_write write_to
  handle_write-refuses s req w = ground arith
