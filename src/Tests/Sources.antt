-- ===== src/Tests/Sources.antt =====
-- The parser, the snapshot builder and the readers of the database, on a file of two inverters.
use apsystems_sunspec.Base.{
  ◌≡◌, ◌&&◌, refl, Bool, true, not, some, none, List, [], ◌∷◌, inr, map, Str, codes, All, arith,
  is_empty, ltb, ◌==◌, if◌then◌else◌, Option,
}
use apsystems_sunspec.Base.Int.{ℤ, pos, ◌*ℤ◌}
use apsystems_sunspec.Base.Strconv.{itoa, atoi}
use apsystems_sunspec.Base.Strings.{scan_lines, trim_space, split}
use apsystems_sunspec.Base.Strings.Plain.{IsPlain, join}
use apsystems_sunspec.Source.Builder.{Builder, build}
use apsystems_sunspec.Source.Joins.{Answers}
use apsystems_sunspec.Source.Builder.Fleet.{IsFleetView, build-IsFleetView}
use apsystems_sunspec.Source.Builder.Joined.{IsJoined, build-IsJoined, answered}
use apsystems_sunspec.Source.Builder.Powers.{build-IsSummed}
use apsystems_sunspec.Source.Params.{
  Parsers, ParamsHeader, parse_params_app, parse_lines, parse_header, parse_inverter_line,
  parse_telemetry, parse_columns, load_params_file,
}
use apsystems_sunspec.Source.Params.Power.{IsSummed}
use apsystems_sunspec.Source.Params.Report.{
  Report, offline, telemetry, inverter_of_report, params_file,
}
use apsystems_sunspec.Source.Params.RoundTrip.{parse_params_app-params_file}
use apsystems_sunspec.Source.Reader.{value, no_rows, row_failed, query_failed, parse_event_bits}
use apsystems_sunspec.Source.Reader.Bits.{aps-parse_event_bits}
use apsystems_sunspec.Source.Protection.Rows.{ProtectionRow, params_of_row}
use apsystems_sunspec.Server.Tracker.{prot_get}
use apsystems_sunspec.Server.Tracker.Reported.{readable, prot_get-params_of_row}
use apsystems_sunspec.Sunspec.Events.{aps}
use apsystems_sunspec.Tests.Machine.{fixed_point}

-- Frequencies are whole numbers, and a timestamp is its own text.
abbrev pub parsers : Parsers fixed_point
parsers = record {
  int_size = 32;
  parse_float = λ s. elim (atoi 32 s) [ none ↦ none | some z ↦ some (z *ℤ pos 10000) ];
  Time = Str;
  zero_time = [];
  parse_time = λ s. if is_empty s then none else some s;
}

is_plain : Str → Bool
is_plain [] = true
is_plain (c ∷ s) = ltb 32 c && not (c == 44) && is_plain s

is_plain-IsPlain : (s : Str) → is_plain s ≡ true → IsPlain s
unfolding is_plain
is_plain-IsPlain [] h = tt
is_plain-IsPlain (c ∷ s) h =
    ((ground (arith, h), ground (arith, h)), is_plain-IsPlain s (ground (arith, h)))

abbrev stamp : Str
stamp = codes "20260501093000"

abbrev header : ParamsHeader Str
header = record { protocol_version = codes "01"; inverter_count = pos 2; timestamp = stamp }

abbrev reports : List (Report ℤ)
reports =
    telemetry (codes "806000012345") (pos 1) (codes "01") (codes "50") (pos 500000) (pos 131)
      (pos 250 ∷ pos 230 ∷ pos 240 ∷ pos 230 ∷ [])
    ∷ offline (codes "806000067890") (codes "03")
    ∷ []

parse_params_app-params_file_example :
    parse_params_app fixed_point parsers true (params_file fixed_point parsers header stamp reports)
    ≡ (header, inr (map (inverter_of_report fixed_point parsers) reports))
unfolding is_plain atoi itoa join ◌*ℤ◌
parse_params_app-params_file_example =
    parse_params_app-params_file fixed_point parsers header stamp reports
      (
        is_plain-IsPlain (codes "01") refl,
        omega arith,
        is_plain-IsPlain stamp refl,
        refl,
        omega arith,
      )
      (
        (
          (
            is_plain-IsPlain (codes "806000012345") refl,
            is_plain-IsPlain (codes "01") refl,
            is_plain-IsPlain (codes "50") refl,
            refl,
            omega arith,
            omega arith,
            (omega arith, (omega arith, (omega arith, (omega arith, tt)))),
          ),
          omega arith,
        ),
        (
          (
            (is_plain-IsPlain (codes "806000067890") refl, is_plain-IsPlain (codes "03") refl),
            omega arith,
          ),
          tt,
        ),
      )

-- Bit 33 is in the second slot.
aps-parse_event_bits_example :
    aps (parse_event_bits (codes "0100000000000000000000000000000001")) 33 ≡ true
aps-parse_event_bits_example =
    aps-parse_event_bits (codes "0100000000000000000000000000000001") 33 (omega arith)

-- One inverter online and one offline, as the file has them.
abbrev pub text : Str
text = codes "01,2,20260501093000\n8060,1,01,50,131,250,230,240,230\n8061,0,03\n"

abbrev pub read_file : Str → Option Str
read_file path = none

abbrev pub open_file : Str → Option (Bool × Str)
open_file path = some (true, text)

abbrev pub builder : Builder
builder = record {
  params_file = codes "/tmp/parameters_app.conf";
  yuneng_dir = [];
  ecuid = codes "216000001";
  firmware = [];
  model = [];
}

abbrev limits : List (Str × ℤ)
limits = (codes "8060", pos 500) ∷ (codes "8060", pos 300) ∷ []

abbrev events : List (Str × Str)
events = (codes "8060", codes "01") ∷ []

abbrev pub answers : Answers ℤ
answers = record {
  lifetime = value (pos 12340000);
  today = no_rows;
  month = no_rows;
  year = row_failed;
  signals = answered [];
  limits = answered limits;
  events = answered events;
  ids = query_failed;
  protection = query_failed;
}

build_succeeds : (build fixed_point parsers read_file open_file (some answers) builder).1 ≡ true
unfolding build load_params_file parse_params_app scan_lines parse_lines trim_space split
    parse_header parse_inverter_line parse_telemetry parse_columns atoi ◌*ℤ◌
build_succeeds = refl

build-IsFleetView_example :
    IsFleetView (build fixed_point parsers read_file open_file (some answers) builder).0
build-IsFleetView_example =
    build-IsFleetView fixed_point parsers read_file open_file (some answers) builder build_succeeds

pub build_succeeds_alone : (build fixed_point parsers read_file open_file none builder).1 ≡ true
unfolding build load_params_file parse_params_app scan_lines parse_lines trim_space split
    parse_header parse_inverter_line parse_telemetry parse_columns atoi ◌*ℤ◌
build_succeeds_alone = refl

build-IsJoined_example :
    All
      (IsJoined fixed_point parsers [] limits events)
      (build fixed_point parsers read_file open_file (some answers) builder).0.inverters
build-IsJoined_example =
    build-IsJoined fixed_point parsers read_file open_file builder [] limits events answers
      (refl, refl, refl) build_succeeds

build-IsSummed_example :
    All
      (IsSummed fixed_point parsers)
      (build fixed_point parsers read_file open_file (some answers) builder).0.inverters
build-IsSummed_example =
    build-IsSummed fixed_point parsers read_file open_file (some answers) builder build_succeeds

-- The average over-voltage, the droop's mode and its start are known.
abbrev row : ProtectionRow ℤ
row = record {
  uid = codes "8060";
  ab = some (pos 2530000);
  ac = none;
  ad = none;
  ae = none;
  af = none;
  ag = none;
  ah = none;
  ai = none;
  aj = none;
  ak = none;
  aq = none;
  as_start = none;
  ay = none;
  bb = none;
  bc = none;
  bd = none;
  be = none;
  bh = none;
  bi = none;
  bj = none;
  bk = none;
  bn = none;
  bo = none;
  bp = none;
  bq = none;
  ch = none;
  cc_ = none;
  cv = some (pos 130000);
  dc = some (pos 502000);
  dd = none;
  cb = none;
  dh = none;
  di = none;
}

prot_get-params_of_row_example :
    All
      (λ c. prot_get fixed_point (params_of_row fixed_point row) c.0 ≡ c.1)
      (readable fixed_point row)
prot_get-params_of_row_example = prot_get-params_of_row fixed_point row
