-- ===== src/Server/Handler.antt =====
-- The Modbus handlers of internal/server/server.go. The log is left out.
pub mod OneRegister
pub mod Routing
pub mod Wrap
use apsystems_sunspec.Base.{
  ℕ, zero, suc, ◌+◌, ◌-◌, Bool, true, false, not, ◌||◌, Option, some, none, List, [], ◌∷◌, Str, ltb,
  ◌==◌, if◌then◌else◌,
}
use apsystems_sunspec.Base.Word.{u16}
use apsystems_sunspec.Floats.{Floats}
use apsystems_sunspec.Config.{Net, WritesConfig, allows_write}
use apsystems_sunspec.Source.Database.{Database}
use apsystems_sunspec.Source.Snapshot.{Snapshot}
use apsystems_sunspec.Source.Writer.{Error, Action}
use apsystems_sunspec.Sunspec.Bank.{Bank, contains, slice}
use apsystems_sunspec.Sunspec.Controls.{controls_model_id, controls_body_len}
use apsystems_sunspec.Sunspec.EnterService.{enter_service_model_id, enter_service_body_len}
use apsystems_sunspec.Sunspec.FreqDroop.{freq_droop_model_id, freq_droop_body_len}
use apsystems_sunspec.Sunspec.FreqWattCurve.{freq_watt_curve_model_id, freq_watt_curve_body_len}
use apsystems_sunspec.Server.ControlsWriter.{controls_apply}
use apsystems_sunspec.Server.EnterServiceWriter.{enter_service_apply}
use apsystems_sunspec.Server.FreqDroopWriter.{freq_droop_apply}
use apsystems_sunspec.Server.FreqWattCurveWriter.{freq_watt_curve_apply}
use apsystems_sunspec.Server.FindModel.{find_model_in_bank}
use apsystems_sunspec.Server.World.{World}

pub data ModbusError : Type 0 where
  illegal_function illegal_data_address illegal_data_value server_device_failure : ModbusError

-- What goes back to the client.
pub data Response : Type 0 where
  registers : List ℕ → Response
  written : Response
  refused : ModbusError → Response

pub record Request : Type 0 where
  pub client_addr : Str
  pub unit_id : ℕ
  pub addr : ℕ
  pub quantity : ℕ
  pub args : List ℕ

abbrev pub Banks : Type 0
Banks = List (ℕ × Bank)

unfoldable pub bank_at : ℕ → Banks → Option Bank
bank_at uid [] = none
bank_at uid ((u, b) ∷ m) = if u == uid then some b else bank_at uid m

-- bankFor; `none` before the first refresh.
unfoldable pub bank_for : Option Banks → ℕ → Option Bank
bank_for none uid = none
bank_for (some m) uid = elim (bank_at uid m) [ some b ↦ some b | none ↦ bank_at 1 m ]

-- HandleHoldingRegisters without IsWrite, and HandleInputRegisters.
unfoldable pub handle_read : Option Banks → Request → Response
handle_read banks req = elim (bank_for banks req.unit_id) [
  | none ↦ refused illegal_data_address
  | some b ↦
      if contains b req.addr req.quantity
      then registers (slice b req.addr req.quantity)
      else refused illegal_data_address
]

-- HandleCoils and HandleDiscreteInputs.
unfoldable pub handle_coils : Request → Response
handle_coils req = refused illegal_function

unfoldable pub handle_discrete_inputs : Request → Response
handle_discrete_inputs req = refused illegal_function

-- A writable model, with the method that applies a write at an offset of its body.
pub record ModelWriter (S : Type 0) : Type 0 where
  pub id : ℕ
  pub body_len : ℕ
  pub apply : ℕ → List ℕ → Action S

abbrev pub answer : {S : Type 0} → Option Error × S → Response × S
answer (some e, s) = (refused illegal_data_value, s)
answer (none, s) = (written, s)

-- The loop over the candidates, over uint16 addresses.
unfoldable pub try_models : {S : Type 0} → Bank → Request → List (ModelWriter S) → S → Response × S
try_models bank req [] s = (refused illegal_data_address, s)
try_models bank req (m ∷ ms) s =
    let rest = try_models bank req ms s in
    elim (find_model_in_bank bank m.id) [
      | none ↦ rest
      | some base ↦
          let body_start = u16 (base + 2) in
          let body_end = u16 (body_start + m.body_len) in
          if ltb req.addr body_start || ltb body_end (u16 (req.addr + req.quantity))
          then rest
          else answer (m.apply (req.addr - body_start) req.args s)
    ]

module _ (fl : Floats) (d : Database fl.F) (n : Net) where
  open fl use {F}

  -- What the server holds besides the world; `has_writer` tells a Writer from nil.
  pub record Server : Type 0 where
    pub writes : WritesConfig
    pub has_writer : Bool
    pub banks : Option Banks
    pub snap : Option (Snapshot F)

  unfoldable pub candidates : Snapshot F → ℕ → List (ModelWriter (World d))
  candidates snap uid =
      record {
        id = controls_model_id;
        body_len = controls_body_len;
        apply = controls_apply d snap uid;
      }
      ∷ record {
        id = enter_service_model_id;
        body_len = enter_service_body_len;
        apply = enter_service_apply fl d snap uid;
      }
      ∷ record {
        id = freq_droop_model_id;
        body_len = freq_droop_body_len;
        apply = freq_droop_apply fl d snap uid;
      }
      ∷ record {
        id = freq_watt_curve_model_id;
        body_len = freq_watt_curve_body_len;
        apply = freq_watt_curve_apply fl d snap uid;
      }
      ∷ []

  -- From the choice of the bank on.
  unfoldable pub write_to : Server → Request → World d → Response × World d
  unfolding try_models candidates
  write_to s req w = elim (bank_for s.banks req.unit_id) [
    | none ↦ (refused illegal_data_address, w)
    | some bank ↦ elim s.snap [
      | none ↦ (refused server_device_failure, w)
      | some snap ↦ try_models bank req (candidates snap req.unit_id) w
    ]
  ]

  unfoldable pub handle_write : Server → Request → World d → Response × World d
  unfolding write_to
  handle_write s req w =
      if not (allows_write n s.writes req.client_addr)
      then (refused illegal_function, w)
      else if not s.has_writer
      then (refused illegal_function, w)
      else write_to s req w
