-- ===== src/Source/Params/RoundTrip.antt =====
-- ParseParamsApp of internal/source/params.go reads back what main.exe writes.
use native.Mathlib.Nat.{one-le-pow}
use apsystems_sunspec.Base.{
  ◌-◌, ℕ, suc, ◌+◌, ◌≤◌, ◌≡◌, refl, ◌∙◌, true, false, some, List, [], ◌∷◌, inr, map, Str, codes,
  is_empty, length, get_or, All, All-imp, arith,
}
use apsystems_sunspec.Base.Int.{ℤ, pos}
use apsystems_sunspec.Base.Strconv.{itoa, atoi}
use apsystems_sunspec.Base.Strconv.RoundTrip.{IsInt, atoi-itoa, itoa-IsPlain}
use apsystems_sunspec.Base.Strings.{trim_space, split}
use apsystems_sunspec.Base.Strings.Plain.{
  IsPlain, join, IsLine, scan_lines-unlines, join-IsSolid, split-trim_space-join,
}
use apsystems_sunspec.Floats.{Floats}
use apsystems_sunspec.Source.Params.{
  Parsers, ParamsHeader, parse_columns, parse_header, parse_telemetry, parse_inverter_line,
  with_inverter, parse_lines, max_line, zero_header, parse_params_app,
}
use apsystems_sunspec.Source.Params.Report.{
  Report, offline, telemetry, report_fields, report_line, inverter_of_report, IsReport, IsRow,
  header_line, IsHeader, params_file,
}

parse_columns-itoa :
    (bits i : ℕ) (zs : List ℤ) → All (IsInt bits) zs → parse_columns bits i (map itoa zs) ≡ inr zs
unfolding parse_columns
parse_columns-itoa bits i [] h = refl
parse_columns-itoa bits i (z ∷ zs) h =
    rw (parse_columns, atoi-itoa bits z h.0, parse_columns-itoa bits (i + 1) zs h.1) refl

is_empty-join : (s t : Str) (ss : List Str) → is_empty (join b',' (s ∷ t ∷ ss)) ≡ false
unfolding join
is_empty-join [] t ss = refl
is_empty-join (c ∷ s) t ss = refl

zero_text : (bits : ℕ) → atoi bits (codes "0") ≡ some (pos 0)
unfolding itoa
zero_text bits = atoi-itoa bits (pos 0) (one-le-pow (bits - 1) 2 (omega arith))

map-itoa-IsPlain : (zs : List ℤ) → All IsPlain (map itoa zs)
map-itoa-IsPlain [] = tt
map-itoa-IsPlain (z ∷ zs) = (itoa-IsPlain z, map-itoa-IsPlain zs)

-- Such a line is trimmed to itself, is not empty, and is split into its fields.
line_read :
    (s t : Str) (ss : List Str)
    → All IsPlain (s ∷ t ∷ ss)
    → let line = join b',' (s ∷ t ∷ ss) in
      (trim_space line ≡ line) × (is_empty line ≡ false) × (split b',' line ≡ s ∷ t ∷ ss)
line_read s t ss h = let r = split-trim_space-join s (t ∷ ss) h in (r.0, is_empty-join s t ss, r.1)

report_line-read :
    {F : Type 0} (r : Report F)
    → All IsPlain (report_fields r)
    → (trim_space (report_line r) ≡ report_line r)
      × (is_empty (report_line r) ≡ false)
      × (split b',' (report_line r) ≡ report_fields r)
report_line-read (offline uid code) h = line_read _ _ _ h
report_line-read (telemetry uid online code freq_text freq temp_raw cols) h = line_read _ _ _ h

module _ (fl : Floats) (p : Parsers fl) where
  open fl use {F}
  open p use {int_size, parse_float, Time, parse_time}

  parse_offline :
      (uid code : Str)
      → parse_inverter_line fl p (report_fields {F = F} (offline uid code))
        ≡ inr (inverter_of_report fl p (offline uid code))
  unfolding parse_inverter_line
  parse_offline uid code = rw (zero_text int_size) refl

  parse_header-fields :
      (h : ParamsHeader Time) (time_text : Str)
      → IsHeader fl p h time_text
      → parse_header fl p (h.protocol_version ∷ itoa h.inverter_count ∷ time_text ∷ []) ≡ inr h
  unfolding parse_header
  parse_header-fields h time_text ok = rw (atoi-itoa int_size h.inverter_count ok.1, ok.3) refl

  -- A row of five fields at least is read with its telemetry.
  parse_inverter_line-long :
      (f : List Str) (online : ℤ)
      → 5 ≤ length f
      → atoi int_size (get_or f 1 []) ≡ some online
      → parse_inverter_line fl p f ≡ parse_telemetry fl p f online
  unfolding parse_inverter_line
  parse_inverter_line-long f online h k = ground (arith, h, k)

  parse_telemetry-fields :
      (uid : Str) (online : ℤ) (code freq_text : Str) (freq : F) (temp_raw : ℤ) (cols : List ℤ)
      → parse_float freq_text ≡ some freq
      → IsInt int_size temp_raw
      → All (IsInt int_size) cols
      → let r = telemetry uid online code freq_text freq temp_raw cols in
        parse_telemetry fl p (report_fields r) online ≡ inr (inverter_of_report fl p r)
  unfolding parse_telemetry
  parse_telemetry-fields uid online code freq_text freq temp_raw cols freq_ok temp_ok cols_ok =
      rw
        (
          parse_telemetry,
          freq_ok,
          atoi-itoa int_size temp_raw temp_ok,
          parse_columns-itoa int_size 4 (temp_raw ∷ cols) (temp_ok, cols_ok),
        )
        refl

  parse_inverter_line-fields :
      (r : Report F)
      → IsReport fl p r
      → parse_inverter_line fl p (report_fields r) ≡ inr (inverter_of_report fl p r)
  parse_inverter_line-fields (offline uid code) ok = parse_offline uid code
  parse_inverter_line-fields (telemetry uid online code freq_text freq temp_raw cols) ok =
      let (_, _, _, freq_ok, online_ok, temp_ok, cols_ok) = ok in
      parse_inverter_line-long _ online (omega arith) (atoi-itoa int_size online online_ok)
      ∙ parse_telemetry-fields uid online code freq_text freq temp_raw cols freq_ok temp_ok cols_ok

  report_fields-IsPlain : (r : Report F) → IsReport fl p r → All IsPlain (report_fields r)
  report_fields-IsPlain (offline uid code) ok =
      (ok.0, (((omega arith, ground arith), tt), (ok.1, tt)))
  report_fields-IsPlain (telemetry uid online code freq_text freq temp_raw cols) ok =
      (ok.0, (itoa-IsPlain online, (ok.1, (ok.2, (itoa-IsPlain temp_raw, map-itoa-IsPlain cols)))))

  -- One line of the loop.
  parse_lines-report :
      (n : ℕ) (h : ParamsHeader Time) (r : Report F) (texts : List Str)
      → IsReport fl p r
      → parse_lines fl p true (n + 2) h (report_line r ∷ texts)
        ≡ with_inverter fl p (inverter_of_report fl p r) (parse_lines fl p true (suc n + 2) h texts)
  unfolding parse_lines
  parse_lines-report n h r texts ok =
      ground
        (arith, report_line-read r (report_fields-IsPlain r ok), parse_inverter_line-fields r ok)

  parse_lines-reports :
      (n : ℕ) (h : ParamsHeader Time) (rs : List (Report F))
      → All (IsReport fl p) rs
      → parse_lines fl p true (n + 2) h (map report_line rs)
        ≡ (h, inr (map (inverter_of_report fl p) rs))
  unfolding parse_lines
  parse_lines-reports n h [] ok = refl
  parse_lines-reports n h (r ∷ rs) ok =
      rw (parse_lines-report n h r (map report_line rs) ok.0, parse_lines-reports (suc n) h rs ok.1)
        refl

  header-IsPlain :
      (h : ParamsHeader Time) (time_text : Str)
      → IsHeader fl p h time_text
      → All IsPlain (h.protocol_version ∷ itoa h.inverter_count ∷ time_text ∷ [])
  header-IsPlain h time_text ok = (ok.0, (itoa-IsPlain h.inverter_count, (ok.2, tt)))

  rows-IsLine :
      (rs : List (Report F))
      → All (IsRow fl p) rs
      → All (IsLine (max_line fl p)) (map report_line rs)
  rows-IsLine [] ok = tt
  rows-IsLine (r ∷ rs) ok = (
    (join-IsSolid (report_fields r) (report_fields-IsPlain r ok.0.0), ok.0.1),
    rows-IsLine rs ok.1,
  )

  parse_lines-header :
      (h : ParamsHeader Time) (time_text : Str) (texts : List Str)
      → IsHeader fl p h time_text
      → parse_lines fl p true 1 (zero_header fl p) (header_line fl p h time_text ∷ texts)
        ≡ parse_lines fl p true 2 h texts
  unfolding parse_lines
  parse_lines-header h time_text texts ok = ground (
    arith,
    parse_header-fields h time_text ok,
    line_read h.protocol_version (itoa h.inverter_count) (time_text ∷ [])
        (header-IsPlain h time_text ok),
  )

  -- Of a file of one header and any number of rows, whose texts have no white space and no comma,
  -- whose numbers fit an int, and whose lines fit the scanner's buffer, ParseParamsApp returns the
  -- header and, in the order of the rows, the inverter that each stands for.
  pub parse_params_app-params_file :
      (h : ParamsHeader Time) (time_text : Str) (reports : List (Report F))
      → IsHeader fl p h time_text
      → All (IsRow fl p) reports
      → parse_params_app fl p true (params_file fl p h time_text reports)
        ≡ (h, inr (map (inverter_of_report fl p) reports))
  unfolding parse_params_app
  parse_params_app-params_file h time_text reports header_ok rows_ok =
      let lines = header_line fl p h time_text ∷ map report_line reports in
      rw
        (scan_lines-unlines (max_line fl p) lines (
          (join-IsSolid _ (header-IsPlain h time_text header_ok), header_ok.4),
          rows-IsLine reports rows_ok,
        ))
        (parse_lines-header h time_text (map report_line reports) header_ok
          ∙ parse_lines-reports 0 h reports (All-imp _ _ reports (λ r ok. ok.0) rows_ok))
