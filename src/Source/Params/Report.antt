-- ===== src/Source/Params/Report.antt =====
-- What main.exe writes to parameters_app.conf, after the comments of internal/source/params.go: a
-- header and one row for each inverter, short when it is offline.
use apsystems_sunspec.Base.{◌≡◌, ◌<◌, some, List, [], ◌∷◌, map, Str, codes, length, All}
use apsystems_sunspec.Base.Int.{ℤ}
use apsystems_sunspec.Base.Strconv.{itoa}
use apsystems_sunspec.Base.Strconv.RoundTrip.{IsInt}
use apsystems_sunspec.Base.Strings.Plain.{IsPlain, join, unlines}
use apsystems_sunspec.Floats.{Floats}
use apsystems_sunspec.Source.Inverter.{Inverter}
use apsystems_sunspec.Source.Params.{
  Parsers, ParamsHeader, max_line, offline_inverter, reported_inverter,
}

-- A row: the identifier and the type; with telemetry also whether it is online, the frequency as a
-- text and as the number that it stands for, the temperature as it is written, and the other columns.
pub data Report (F : Type 0) : Type 0 where
  offline : Str → Str → Report F
  telemetry : Str → ℤ → Str → Str → F → ℤ → List ℤ → Report F

abbrev pub report_fields : {F : Type 0} → Report F → List Str
report_fields (offline uid code) = uid ∷ codes "0" ∷ code ∷ []
report_fields (telemetry uid online code freq_text freq temp_raw cols) =
    uid ∷ itoa online ∷ code ∷ freq_text ∷ itoa temp_raw ∷ map itoa cols

abbrev pub report_line : {F : Type 0} → Report F → Str
report_line r = join b',' (report_fields r)

module _ (fl : Floats) (p : Parsers fl) where
  open fl use {F}
  open p use {int_size, parse_float, Time, parse_time}

  -- The inverter that a row stands for.
  abbrev pub inverter_of_report : Report F → Inverter F
  inverter_of_report (offline uid code) = offline_inverter fl p uid code
  inverter_of_report (telemetry uid online code freq_text freq temp_raw cols) =
      reported_inverter fl p uid online code freq temp_raw (temp_raw ∷ cols)

  -- Its texts have no white space and no comma, its numbers fit an int.
  abbrev pub IsReport : Report F → Type 0
  IsReport (offline uid code) = IsPlain uid × IsPlain code
  IsReport (telemetry uid online code freq_text freq temp_raw cols) =
      IsPlain uid
      × IsPlain code
      × IsPlain freq_text
      × (parse_float freq_text ≡ some freq)
      × IsInt int_size online
      × IsInt int_size temp_raw
      × All (IsInt int_size) cols

  -- Such a row, short enough for the scanner.
  abbrev pub IsRow : Report F → Type 0
  IsRow r = IsReport r × (length (report_line r) < max_line fl p)

  -- The header with its timestamp as a text.
  abbrev pub header_line : ParamsHeader Time → Str → Str
  header_line h time_text = join b',' (h.protocol_version ∷ itoa h.inverter_count ∷ time_text ∷ [])

  abbrev pub IsHeader : ParamsHeader Time → Str → Type 0
  IsHeader h time_text =
      IsPlain h.protocol_version
      × IsInt int_size h.inverter_count
      × IsPlain time_text
      × (parse_time time_text ≡ some h.timestamp)
      × (length (header_line h time_text) < max_line fl p)

  abbrev pub params_file : ParamsHeader Time → Str → List (Report F) → Str
  params_file h time_text reports = unlines (header_line h time_text ∷ map report_line reports)
