-- ===== src/Source/Builder/Joined.antt =====
-- What Build of internal/source/snapshot_builder.go joins onto the inverters of the parameter file.
use apsystems_sunspec.Base.{
  ◌≡◌, refl, ap, ◌∙◌, Bool, true, Option, none, some, List, [], ◌∷◌, inr, map, Str, str_eq, All,
  Option-cases, lookup, insert, lookup-insert, if◌then◌else◌, arith,
}
use apsystems_sunspec.Base.Int.{ℤ, pos}
use apsystems_sunspec.Floats.{Floats}
use apsystems_sunspec.Source.Builder.{Builder, ReadFile, with_inverters, build}
use apsystems_sunspec.Source.Joins.{Answers, Joins, joins_of, or_nil, join_inverter, join_all}
use apsystems_sunspec.Source.Builder.Fleet.{build-read}
use apsystems_sunspec.Source.Inverter.{EventBits, Inverter}
use apsystems_sunspec.Source.Params.{Parsers, ParamsHeader, load_params_file}
use apsystems_sunspec.Source.Params.Every.{load_params_file-All}
use apsystems_sunspec.Source.Reader.{
  Answer, rows, fill_map, map_of_rows, signal_strengths, per_inverter_limits, latest_event_bits,
  parse_event_bits, parse_rows,
}
use apsystems_sunspec.Source.Snapshot.{no_bits}

-- The value of the last row of an identifier.
abbrev pub last_of : {V : Type 0} → Str → List (Str × V) → Option V
last_of uid [] = none
last_of uid ((k, v) ∷ rs) = elim (last_of uid rs) [
  | some w ↦ some w
  | none ↦ if str_eq k uid then some v else none
]

-- All rows of an answer, none of which fails.
abbrev pub answered : {V : Type 0} → List V → Answer V
answered rs = rows (map some rs) true

abbrev pub or_else : {V : Type 0} → V → Option V → V
or_else d none = d
or_else d (some v) = v

-- The event bits of the column eve, if any.
abbrev pub bits_of : Option Str → EventBits
bits_of none = no_bits
bits_of (some eve) = parse_event_bits eve

or_else-parsed :
    (o : Option Str)
    → or_else no_bits (elim o [ none ↦ none | some eve ↦ some (parse_event_bits eve) ]) ≡ bits_of o
or_else-parsed none = refl
or_else-parsed (some eve) = refl

module _ {V : Type 0} where
  fill_map-last_of :
      (uid : Str) (out rs : List (Str × V))
      → (m : List (Str × V)) × (fill_map out (map some rs) ≡ some m)
        × (lookup uid m ≡ (elim (last_of uid rs) [ some w ↦ some w | none ↦ lookup uid out ]))
  unfolding fill_map
  fill_map-last_of uid out [] = (out, refl, refl)
  fill_map-last_of uid out ((k, v) ∷ rs) =
      let (m, e, h) = fill_map-last_of uid (insert k v out) rs in
      (m, e, ground (arith, h, lookup-insert k uid v out))

-- What the parser leaves for the join.
abbrev pub IsFresh : {F : Type 0} → Inverter F → Type 0
IsFresh inv =
    (inv.signal_strength ≡ pos 0) × (inv.limited_power_w ≡ pos 0) × (inv.event_bits ≡ no_bits)

module _ (fl : Floats) (p : Parsers fl) where
  open fl use {F}
  open p use {int_size, parse_float, Time}

  load_params_file-IsFresh :
      (file : Option (Bool × Str)) (hdr : ParamsHeader Time) (invs : List (Inverter F))
      → load_params_file fl p file ≡ some (hdr, inr invs)
      → All IsFresh invs
  load_params_file-IsFresh =
      load_params_file-All fl p IsFresh (λ uid code. (refl, refl, refl))
        (λ uid online code freq temp_raw tail. (refl, refl, refl))

  -- Of the answered rows, each inverter has the last of its identifier.
  unfoldable pub IsJoined : List (Str × ℤ) → List (Str × ℤ) → List (Str × Str) → Inverter F → Type 0
  IsJoined signals limits events inv =
      (inv.signal_strength ≡ or_else (pos 0) (last_of inv.uid signals))
      × (inv.limited_power_w ≡ or_else (pos 0) (last_of inv.uid limits))
      × (inv.event_bits ≡ bits_of (last_of inv.uid events))

  parsed_events : List (Str × Str) → List (Str × EventBits)
  parsed_events rs = map (λ r. (r.0, parse_event_bits r.1)) rs

  last_of-parsed_events :
      (uid : Str) (rs : List (Str × Str))
      → last_of uid (parsed_events rs)
        ≡ (elim (last_of uid rs) [ none ↦ none | some eve ↦ some (parse_event_bits eve) ])
  unfolding parsed_events
  last_of-parsed_events uid [] = refl
  last_of-parsed_events uid ((k, eve) ∷ rs) = ground (arith, last_of-parsed_events uid rs)

  parse_rows-some : (rs : List (Str × Str)) → parse_rows (map some rs) ≡ map some (parsed_events rs)
  unfolding parsed_events
  parse_rows-some [] = refl
  parse_rows-some ((k, eve) ∷ rs) =
      ap (λ r. some (k, parse_event_bits eve) ∷ r) (parse_rows-some rs)

  map_of_rows-answered :
      {V : Type 0} (uid : Str) (rs : List (Str × V))
      → (m : List (Str × V)) × (map_of_rows (answered rs) ≡ some m)
        × (lookup uid m ≡ last_of uid rs)
  unfolding map_of_rows lookup
  map_of_rows-answered uid rs =
      let (m, e, h) = fill_map-last_of uid [] rs in (m, e, ground (arith, h))

  or_nil-answered :
      {V : Type 0} (uid : Str) (rs : List (Str × V))
      → lookup uid (or_nil (map_of_rows (answered rs))) ≡ last_of uid rs
  or_nil-answered uid rs = let (m, e, h) = map_of_rows-answered uid rs in rw e h

  join_inverter-joined :
      (j : Joins) (inv : Inverter F)
      → IsFresh inv
      → let inv' = join_inverter j inv in
        (inv'.uid ≡ inv.uid)
        × (inv'.signal_strength ≡ or_else (pos 0) (lookup inv.uid j.sig_by_uid))
        × (inv'.limited_power_w ≡ or_else (pos 0) (lookup inv.uid j.lim_by_uid))
        × (inv'.event_bits ≡ or_else no_bits (lookup inv.uid j.ev_by_uid))
  unfolding join_inverter
  join_inverter-joined j inv h = ground (
    arith,
    h,
    Option-cases (lookup inv.uid j.ev_by_uid),
    Option-cases (lookup inv.uid j.lim_by_uid),
    Option-cases (lookup inv.uid j.sig_by_uid),
    Option-cases (lookup inv.uid j.meta_by_uid),
  )

  -- The answers to the queries of the telemetry, none of whose rows fails.
  abbrev pub IsAnswered : List (Str × ℤ) → List (Str × ℤ) → List (Str × Str) → Answers F → Type 0
  IsAnswered signals limits events a =
      (a.signals ≡ answered signals) × (a.limits ≡ answered limits) × (a.events ≡ answered events)

  events-answered :
      (uid : Str) (events : List (Str × Str))
      → or_else no_bits (lookup uid (or_nil (latest_event_bits (answered events))))
        ≡ bits_of (last_of uid events)
  unfolding latest_event_bits
  events-answered uid events =
      rw
        (
          parse_rows-some events,
          or_nil-answered uid (parsed_events events),
          last_of-parsed_events uid events,
        )
        (or_else-parsed (last_of uid events))

  join_inverter-IsJoined :
      (signals limits : List (Str × ℤ)) (events : List (Str × Str)) (a : Answers F)
      (inv : Inverter F)
      → IsAnswered signals limits events a
      → IsFresh inv
      → IsJoined signals limits events (join_inverter (joins_of (some a)) inv)
  unfolding IsJoined signal_strengths per_inverter_limits
  join_inverter-IsJoined signals limits events a inv (es, el, ee) fresh =
      let (u, s, l, b) = join_inverter-joined (joins_of (some a)) inv fresh in
      rw u (
        s
            ∙ ap (or_else (pos 0)) (
                ap (λ q. lookup inv.uid (or_nil (map_of_rows q))) es
                ∙ or_nil-answered inv.uid signals),
        l
            ∙ ap (or_else (pos 0)) (
                ap (λ q. lookup inv.uid (or_nil (map_of_rows q))) el
                ∙ or_nil-answered inv.uid limits),
        b
            ∙ ap (λ q. or_else no_bits (lookup inv.uid (or_nil (latest_event_bits q)))) ee
            ∙ events-answered inv.uid events,
      )

  join_all-IsJoined :
      (signals limits : List (Str × ℤ)) (events : List (Str × Str)) (a : Answers F)
      (invs : List (Inverter F))
      → IsAnswered signals limits events a
      → All IsFresh invs
      → All (IsJoined signals limits events) (join_all (joins_of (some a)) invs)
  unfolding join_all
  join_all-IsJoined signals limits events a [] ok fresh = tt
  join_all-IsJoined signals limits events a (inv ∷ invs) ok fresh = (
    join_inverter-IsJoined signals limits events a inv ok fresh.0,
    join_all-IsJoined signals limits events a invs ok fresh.1,
  )

  -- When the three queries of the telemetry are answered without an error, each inverter of a snapshot
  -- that Build returns has the signal strength, the power limit and the event bits of the last row of
  -- its identifier, and 0 where the answer has no such row.
  pub build-IsJoined :
      (read : ReadFile) (open_file : Str → Option (Bool × Str)) (b : Builder)
      (signals limits : List (Str × ℤ)) (events : List (Str × Str)) (a : Answers F)
      → IsAnswered signals limits events a
      → (build fl p read open_file (some a) b).1 ≡ true
      → All (IsJoined signals limits events) (build fl p read open_file (some a) b).0.inverters
  unfolding with_inverters
  build-IsJoined read open_file b signals limits events a ok h =
      let (hdr, invs, e, s) = build-read fl p read open_file (some a) b h in
      rw s (
        join_all-IsJoined signals limits events a invs ok
          (load_params_file-IsFresh (open_file b.params_file) hdr invs e))
