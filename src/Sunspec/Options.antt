-- ===== src/Sunspec/Options.antt =====
-- The encoder's options and the strings of the Common Model, internal/sunspec/encoder.go and
-- internal/sunspec/per_inverter.go.
use apsystems_sunspec.Base.{ℕ, Bool, Option, ◌++◌, Str, codes, str_eq, is_empty, if◌then◌else◌}
use apsystems_sunspec.Source.Snapshot.{Snapshot}
use apsystems_sunspec.Sunspec.FreqDroop.{WriteStatus}
use apsystems_sunspec.Sunspec.Phases.{PhaseMode}

pub record Options : Type 0 where
  pub manufacturer : Str
  pub model_name : Str
  pub serial_override : Str
  pub serial_fallback : Str
  pub phase : PhaseMode
  pub disable_mppt : Bool
  pub write_rslt : Option (ℕ → ℕ → WriteStatus)

abbrev pub default_manufacturer : Str
default_manufacturer = codes "APsystems"

abbrev pub default_model_name : Str
default_model_name = codes "ECU-R-Pro"

unfoldable pub str_or : Str → Str → Str
str_or a b = if is_empty a then b else a

unfoldable pub serial_for : {F : Type 0} → Snapshot F → Options → Str
serial_for s opt =
    if is_empty opt.serial_override
    then (if is_empty s.ecuid then opt.serial_fallback else s.ecuid)
    else opt.serial_override

unfoldable pub inverter_model_label : Str → Str
inverter_model_label t =
    if str_eq t (codes "01")
    then codes "DS3"
    else if str_eq t (codes "02")
    then codes "YC1000"
    else if str_eq t (codes "03")
    then codes "QS1"
    else if str_eq t (codes "04")
    then codes "DS3-H"
    else if str_eq t (codes "05")
    then codes "QT2"
    else if is_empty t
    then codes "microinverter"
    else codes "type-" ++ t
