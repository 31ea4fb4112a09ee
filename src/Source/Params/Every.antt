-- ===== src/Source/Params/Every.antt =====
-- A property of every inverter that ParseParamsApp of internal/source/params.go returns.
use mathlib.Core.Path.{subst}
use apsystems_sunspec.Base.{
  ℕ, ◌+◌, ◌≡◌, Bool, true, false, Option, none, some, List, [], ◌∷◌, ◌⊎◌, inl, inr, Str, All,
  Option-cases, Sum-cases, if_holds, is_empty, ◌==◌, ltb, length, get_or, drop, arith,
}
use apsystems_sunspec.Base.Int.{ℤ}
use apsystems_sunspec.Base.Strconv.{atoi}
use apsystems_sunspec.Base.Strings.{trim_space, split, scan_lines}
use apsystems_sunspec.Floats.{Floats}
use apsystems_sunspec.Source.Inverter.{Inverter}
use apsystems_sunspec.Source.Params.{
  Parsers, ParamsHeader, ParamsResult, ParamsError, at_line, InverterError, is_zero, parse_columns,
  parse_header, parse_telemetry, parse_inverter_line, with_inverter, max_line, zero_header,
  parse_lines, parse_params_app, load_params_file, offline_inverter, reported_inverter,
}

module _ (fl : Floats) (p : Parsers fl) (P : Inverter fl.F → Type 0)
    (of_offline : (uid code : Str) → P (offline_inverter fl p uid code))
    (of_reported : (uid : Str) (online : ℤ) (code : Str) (freq : fl.F) (temp_raw : ℤ)
        (tail : List ℤ)
      → P (reported_inverter fl p uid online code freq temp_raw tail)) where
  open fl use {F}
  open p use {int_size, parse_float, Time}

  abbrev HoldsOfLine : InverterError ⊎ Inverter F → Type 0
  HoldsOfLine (inl e) = Unit
  HoldsOfLine (inr inv) = P inv

  abbrev HoldsOfResult : ParamsResult fl p → Type 0
  HoldsOfResult (h, inl e) = Unit
  HoldsOfResult (h, inr invs) = All P invs

  abbrev HoldsOfFile : Option (ParamsResult fl p) → Type 0
  HoldsOfFile none = Unit
  HoldsOfFile (some r) = HoldsOfResult r

  of_telemetry : (f : List Str) (online : ℤ) → HoldsOfLine (parse_telemetry fl p f online)
  unfolding parse_telemetry
  of_telemetry f online = elim (Option-cases (parse_float (get_or f 3 []))) [
    | inl e ↦ rw (parse_telemetry, e) tt
    | inr (freq, e) ↦ elim (Option-cases (atoi int_size (get_or f 4 []))) [
      | inl e4 ↦ rw (parse_telemetry, e, e4) tt
      | inr (temp_raw, e4) ↦ elim (Sum-cases (parse_columns int_size 4 (drop 4 f))) [
        | inl (i, e5) ↦ rw (parse_telemetry, e, e4, e5) tt
        | inr (tail, e5) ↦
            rw (parse_telemetry, e, e4, e5)
              (of_reported (get_or f 0 []) online _ freq temp_raw tail)
      ]
    ]
  ]

  of_line : (f : List Str) → HoldsOfLine (parse_inverter_line fl p f)
  unfolding parse_inverter_line
  of_line f =
      if_holds HoldsOfLine (ltb (length f) 3) _ _ tt
        (elim (Option-cases (atoi int_size (get_or f 1 []))) [
          | inl e ↦ rw e tt
          | inr (online, e) ↦ rw e (
              if_holds HoldsOfLine (ltb (length f) 5) _ _
                (if_holds HoldsOfLine (is_zero online) _ _ (of_offline _ _) tt)
                (of_telemetry f online))
        ])

  of_with_inverter :
      (r : InverterError ⊎ Inverter F) (h : ParamsHeader Time) (e : InverterError → ParamsError)
      (rest : ParamsResult fl p)
      → HoldsOfLine r
      → HoldsOfResult rest
      → HoldsOfResult (elim r [ inl x ↦ (h, inl (e x)) | inr inv ↦ with_inverter fl p inv rest ])
  of_with_inverter (inl x) h e rest a b = tt
  of_with_inverter (inr inv) h e (header, inl x) a b = tt
  of_with_inverter (inr inv) h e (header, inr invs) a b = (a, b)

  of_lines :
      (ok : Bool) (n : ℕ) (h : ParamsHeader Time) (texts : List Str)
      → HoldsOfResult (parse_lines fl p ok n h texts)
  unfolding parse_lines
  of_lines true n h [] = tt
  of_lines false n h [] = tt
  of_lines ok n h (text ∷ texts) =
      let line = trim_space text in
      if_holds HoldsOfResult (is_empty line) _ _ (of_lines ok (n + 1) h texts) (
        if_holds HoldsOfResult (n == 1) _ _
          (elim (Sum-cases (parse_header fl p (split b',' line))) [
            | inl (x, e) ↦ rw e tt
            | inr (h', e) ↦ rw e (of_lines ok (n + 1) h' texts)
          ])
          (of_with_inverter (parse_inverter_line fl p (split b',' line)) h (at_line n line) _
            (of_line (split b',' line)) (of_lines ok (n + 1) h texts)))

  -- What holds of the inverter of a short row and of one with telemetry holds of all.
  pub load_params_file-All :
      (file : Option (Bool × Str)) (hdr : ParamsHeader Time) (invs : List (Inverter F))
      → load_params_file fl p file ≡ some (hdr, inr invs)
      → All P invs
  unfolding load_params_file parse_params_app
  load_params_file-All none hdr invs h = absurd (ground (arith, h))
  load_params_file-All (some (readable, s)) hdr invs h = subst HoldsOfFile h (
      of_lines (scan_lines (max_line fl p) readable s).1 1 (zero_header fl p)
        (scan_lines (max_line fl p) readable s).0)
