-- ===== src/Source/Params.antt =====
-- internal/source/params.go: the parser of parameters_app.conf. ParseFloat, ParseInLocation and the
-- width of an int come in through `Parsers`.
pub mod Every
pub mod Power
pub mod Report
pub mod RoundTrip
use apsystems_sunspec.Base.{
  ℕ, ◌+◌, Bool, true, false, not, Option, none, some, List, [], ◌∷◌, ◌⊎◌, inl, inr, Str, is_empty,
  length, get_or, drop, ltb, leb, ◌==◌, if◌then◌else◌,
}
use apsystems_sunspec.Base.Int.{ℤ, pos, negsuc, ◌+ℤ◌, ◌-ℤ◌}
use apsystems_sunspec.Base.Strconv.{atoi}
use apsystems_sunspec.Base.Strings.{trim_space, split, scan_lines}
use apsystems_sunspec.Floats.{Floats}
use apsystems_sunspec.Source.Inverter.{Inverter, is_two_channel, is_four_channel, tail_at}
use apsystems_sunspec.Source.Snapshot.{no_bits}

pub record Parsers (fl : Floats) : Type 1 where
  pub int_size : ℕ
  pub parse_float : Str → Option fl.F
  pub Time : Type 0
  pub zero_time : Time
  -- ParseInLocation with the layout 20060102150405 in the local zone.
  pub parse_time : Str → Option Time

pub data HeaderError : Type 0 where
  short_header : HeaderError
  bad_count : HeaderError
  bad_timestamp : HeaderError

pub data InverterError : Type 0 where
  short_row : InverterError
  bad_online : InverterError
  short_online_row : InverterError
  bad_freq : InverterError
  bad_temp : InverterError
  bad_column : ℕ → InverterError

pub data ParamsError : Type 0 where
  at_header : HeaderError → ParamsError
  -- With the number of the line and its text.
  at_line : ℕ → Str → InverterError → ParamsError
  at_scan : ParamsError

-- ParamsHeader
pub record ParamsHeader (T : Type 0) : Type 0 where
  pub protocol_version : Str
  pub inverter_count : ℤ
  pub timestamp : T

-- The voltage and the power.
unfoldable pub guess_ac_from_tail : Str → List ℤ → ℤ × ℤ
guess_ac_from_tail code t =
    if is_two_channel code
    then (if leb 5 (length t) then (tail_at t 2, tail_at t 1 +ℤ tail_at t 3) else (pos 0, pos 0))
    else if is_four_channel code
    then (if leb 6 (length t)
        then (tail_at t 2, tail_at t 1 +ℤ tail_at t 3 +ℤ tail_at t 4 +ℤ tail_at t 5)
        else (pos 0, pos 0))
    else (pos 0, pos 0)

abbrev pub is_zero : ℤ → Bool
is_zero (pos n) = n == 0
is_zero (negsuc n) = false

-- The loop over the columns from `i` on.
unfoldable pub parse_columns : ℕ → ℕ → List Str → ℕ ⊎ List ℤ
parse_columns bits i [] = inr []
parse_columns bits i (s ∷ ss) = elim (atoi bits s) [
  | none ↦ inl i
  | some v ↦ elim (parse_columns bits (i + 1) ss) [ inl j ↦ inl j | inr vs ↦ inr (v ∷ vs) ]
]

module _ (fl : Floats) (p : Parsers fl) where
  open fl use {F, lit}
  open p use {int_size, parse_float, Time, zero_time, parse_time}

  abbrev pub zero_header : ParamsHeader Time
  zero_header = record { protocol_version = []; inverter_count = pos 0; timestamp = zero_time }

  unfoldable pub parse_header : List Str → HeaderError ⊎ ParamsHeader Time
  parse_header f =
      if ltb (length f) 3 then inl short_header else elim (atoi int_size (get_or f 1 [])) [
        | none ↦ inl bad_count
        | some cnt ↦ elim (parse_time (get_or f 2 [])) [
          | none ↦ inl bad_timestamp
          | some ts ↦
              inr
                (record { protocol_version = get_or f 0 []; inverter_count = cnt; timestamp = ts })
        ]
      ]

  -- Inverter{UID: …, Online: false, TypeCode: …}
  abbrev pub offline_inverter : Str → Str → Inverter F
  offline_inverter uid code = record {
    uid = uid;
    online = false;
    type_code = code;
    frequency_hz = lit 0 0;
    temperature_c = pos 0;
    ac_voltage_v = pos 0;
    ac_power_w = pos 0;
    signal_strength = pos 0;
    phase = pos 0;
    model = pos 0;
    software_ver = pos 0;
    limited_power_w = pos 0;
    raw_tail = [];
    event_bits = no_bits;
  }

  abbrev pub reported_inverter : Str → ℤ → Str → F → ℤ → List ℤ → Inverter F
  reported_inverter uid online code freq temp_raw tail =
      let ac = guess_ac_from_tail code tail in
      record (offline_inverter uid code) {
        online = not (is_zero online);
        frequency_hz = freq;
        temperature_c = temp_raw -ℤ pos 100;
        raw_tail = tail;
        ac_voltage_v = ac.0;
        ac_power_w = ac.1;
      }

  -- parseInverterLine from ParseFloat on, for five fields at least.
  unfoldable pub parse_telemetry : List Str → ℤ → InverterError ⊎ Inverter F
  parse_telemetry f online = elim (parse_float (get_or f 3 [])) [
    | none ↦ inl bad_freq
    | some freq ↦ elim (atoi int_size (get_or f 4 [])) [
      | none ↦ inl bad_temp
      | some temp_raw ↦ elim (parse_columns int_size 4 (drop 4 f)) [
        | inl i ↦ inl (bad_column i)
        | inr tail ↦
            inr (reported_inverter (get_or f 0 []) online (get_or f 2 []) freq temp_raw tail)
      ]
    ]
  ]

  unfoldable pub parse_inverter_line : List Str → InverterError ⊎ Inverter F
  parse_inverter_line f =
      if ltb (length f) 3 then inl short_row else elim (atoi int_size (get_or f 1 [])) [
        | none ↦ inl bad_online
        | some online ↦
            if ltb (length f) 5
            then (if is_zero online
                then inr (offline_inverter (get_or f 0 []) (get_or f 2 []))
                else inl short_online_row)
            else parse_telemetry f online
      ]

  abbrev pub ParamsResult : Type 0
  ParamsResult = ParamsHeader Time × (ParamsError ⊎ List (Inverter F))

  -- `invs = append(invs, inv)` before the rest of the loop.
  abbrev pub with_inverter : Inverter F → ParamsResult → ParamsResult
  with_inverter inv (header, inl e) = (header, inl e)
  with_inverter inv (header, inr invs) = (header, inr (inv ∷ invs))

  -- The loop from the line `line_no` on; `ok` is whether the scanner ends without an error.
  unfoldable pub parse_lines : Bool → ℕ → ParamsHeader Time → List Str → ParamsResult
  parse_lines ok line_no header [] = (header, if ok then inr [] else inl at_scan)
  parse_lines ok line_no header (text ∷ texts) =
      let line = trim_space text in
      let rest = parse_lines ok (line_no + 1) header texts in
      if is_empty line
      then rest
      else if line_no == 1
      then elim (parse_header (split b',' line)) [
        | inl e ↦ (zero_header, inl (at_header e))
        | inr h ↦ parse_lines ok (line_no + 1) h texts
      ]
      else elim (parse_inverter_line (split b',' line)) [
        | inl e ↦ (header, inl (at_line line_no line e))
        | inr inv ↦ with_inverter inv rest
      ]

  abbrev pub max_line : ℕ
  max_line = 1048576

  -- ParseParamsApp of a reader that gives these bytes, and then an error unless `readable`.
  unfoldable pub parse_params_app : Bool → Str → ParamsResult
  parse_params_app readable s =
      let r = scan_lines max_line readable s in parse_lines r.1 1 zero_header r.0

  -- LoadParamsFile of what os.Open gives: nothing, or a reader.
  unfoldable pub load_params_file : Option (Bool × Str) → Option ParamsResult
  load_params_file none = none
  load_params_file (some (readable, s)) = some (parse_params_app readable s)
