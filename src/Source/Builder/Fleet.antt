-- ===== src/Source/Builder/Fleet.antt =====
-- What Build of internal/source/snapshot_builder.go says of the whole fleet.
use apsystems_sunspec.Base.{
  ℕ, suc, ◌+◌, ◌≡◌, refl, ◌∙◌, ap, sym, Bool, true, not, ◌||◌, ◌&&◌, Option, some, List, [], ◌∷◌,
  inl, inr, Str, All, Option-cases, ◌==◌, if◌then◌else◌, arith, ◌⊎◌, ◌≢◌,
}
use apsystems_sunspec.Base.Int.{ℤ, pos, ◌+ℤ◌, ◌≤ℤ◌, ltb_ℤ}
use apsystems_sunspec.Base.Int.Sums.{add_zero, zero_add, add_assoc}
use apsystems_sunspec.Base.Word.{i32_of_ℤ}
use apsystems_sunspec.Floats.{Floats}
use apsystems_sunspec.Source.Builder.{
  Builder, ReadFile, Stats, sum_online_power, live_system_power_w, no_stats, count_inverter,
  count_all, before_params, with_inverters, build,
}
use apsystems_sunspec.Source.Joins.{Answers, joins_of, join_all}
use apsystems_sunspec.Source.Inverter.{Inverter}
use apsystems_sunspec.Source.Params.{Parsers, ParamsHeader, load_params_file}
use apsystems_sunspec.Source.Snapshot.{Snapshot}
use apsystems_sunspec.Sunspec.Events.{aggregate_operating_state, st_sleep, st_mppt, st_standby}

module _ {F : Type 0} where
  -- How many inverters are online.
  abbrev pub online_count : List (Inverter F) → ℕ
  online_count [] = 0
  online_count (inv ∷ invs) = if inv.online then suc (online_count invs) else online_count invs

  -- The sum of the powers of those.
  abbrev pub online_power : List (Inverter F) → ℤ
  online_power [] = pos 0
  online_power (inv ∷ invs) =
      if inv.online then inv.ac_power_w +ℤ online_power invs else online_power invs

  -- No inverter that is online is hotter.
  abbrev pub IsUpperTemperature : ℤ → List (Inverter F) → Type 0
  IsUpperTemperature t invs = All (λ inv. inv.online ≡ true → inv.temperature_c ≤ℤ t) invs

  -- Some inverter that is online has this temperature.
  abbrev pub HasTemperature : ℤ → List (Inverter F) → Type 0
  HasTemperature t [] = ⊥
  HasTemperature t (inv ∷ invs) =
      ((inv.online ≡ true) × (inv.temperature_c ≡ t)) ⊎ HasTemperature t invs

  -- The fleet-wide fields of a snapshot agree with its inverters.
  pub record IsFleetView (s : Snapshot F) : Type 0 where
    pub counted : s.inverter_online_count ≡ pos (online_count s.inverters)
    pub powered : s.system_power_w ≡ i32_of_ℤ (online_power s.inverters)
    pub bounded : online_count s.inverters ≢ 0 → IsUpperTemperature s.max_temperature_c s.inverters
    pub attained : online_count s.inverters ≢ 0 → HasTemperature s.max_temperature_c s.inverters

sum_online_power-online_power :
    {F : Type 0} (z : ℤ) (invs : List (Inverter F))
    → sum_online_power z invs ≡ z +ℤ online_power invs
unfolding sum_online_power
sum_online_power-online_power z [] = sym (add_zero z)
sum_online_power-online_power z (inv ∷ invs) = ground (
  arith,
  sum_online_power-online_power z invs,
  sum_online_power-online_power (z +ℤ inv.ac_power_w) invs,
  add_assoc z inv.ac_power_w (online_power invs),
)

module _ (fl : Floats) where
  open fl use {F}

  count_all-online :
      (st : Stats F) (invs : List (Inverter F))
      → (count_all fl st invs).online ≡ st.online + online_count invs
  unfolding count_all count_inverter
  count_all-online st [] = omega arith
  count_all-online st (inv ∷ invs) =
      ground (arith, count_all-online (count_inverter fl inv st) invs)

  count_inverter-temp_max :
      (inv : Inverter F) (st : Stats F)
      → (count_inverter fl inv st).temp_max ≡ (
          if inv.online && (not st.has_temp || ltb_ℤ st.temp_max inv.temperature_c)
          then inv.temperature_c
          else st.temp_max)
  unfolding count_inverter
  count_inverter-temp_max inv st = ground arith

  count_inverter-has_temp :
      (inv : Inverter F) (st : Stats F)
      → (count_inverter fl inv st).has_temp ≡ (inv.online || st.has_temp)
  unfolding count_inverter
  count_inverter-has_temp inv st = ground arith

  count_all-has_temp :
      (st : Stats F) (invs : List (Inverter F))
      → online_count invs ≢ 0 ⊎ (st.has_temp ≡ true)
      → (count_all fl st invs).has_temp ≡ true
  unfolding count_all
  count_all-has_temp st [] h = ground (arith, h)
  count_all-has_temp st (inv ∷ invs) h =
      ground (
        arith,
        h,
        count_inverter-has_temp inv st,
        count_all-has_temp (count_inverter fl inv st) invs,
      )

  -- The highest temperature only rises.
  count_all-rises :
      (st : Stats F) (invs : List (Inverter F))
      → st.has_temp ≡ true
      → st.temp_max ≤ℤ (count_all fl st invs).temp_max
  unfolding count_all
  count_all-rises st [] h = omega arith
  count_all-rises st (inv ∷ invs) h = ground (
    arith,
    h,
    count_inverter-has_temp inv st,
    count_inverter-temp_max inv st,
    count_all-rises (count_inverter fl inv st) invs,
  )

  count_all-IsUpperTemperature :
      (st : Stats F) (invs : List (Inverter F))
      → IsUpperTemperature (count_all fl st invs).temp_max invs
  unfolding count_all
  count_all-IsUpperTemperature st [] = tt
  count_all-IsUpperTemperature st (inv ∷ invs) = (
    λ h. ground (
      arith,
      h,
      count_inverter-has_temp inv st,
      count_inverter-temp_max inv st,
      count_all-rises (count_inverter fl inv st) invs,
    ),
    count_all-IsUpperTemperature (count_inverter fl inv st) invs,
  )

  count_all-HasTemperature :
      (st : Stats F) (invs : List (Inverter F))
      → ((count_all fl st invs).temp_max ≡ st.temp_max)
          × ((st.has_temp ≡ true) ⊎ (online_count invs ≡ 0))
        ⊎ HasTemperature (count_all fl st invs).temp_max invs
  unfolding count_all
  count_all-HasTemperature st [] = inl (refl, inr refl)
  count_all-HasTemperature st (inv ∷ invs) = ground (
    arith,
    count_inverter-has_temp inv st,
    count_inverter-temp_max inv st,
    count_all-HasTemperature (count_inverter fl inv st) invs,
  )

  count_all-no_stats :
      (invs : List (Inverter F)) → (count_all fl (no_stats fl) invs).online ≡ online_count invs
  count_all-no_stats invs = omega (arith, count_all-online (no_stats fl) invs)

  no_stats-HasTemperature :
      (invs : List (Inverter F))
      → online_count invs ≢ 0
      → HasTemperature (count_all fl (no_stats fl) invs).temp_max invs
  no_stats-HasTemperature invs h = ground (arith, h, count_all-HasTemperature (no_stats fl) invs)

  with_inverters-IsFleetView :
      {T : Type 0} (db : Option (Answers F)) (hdr : ParamsHeader T) (found : List (Inverter F))
      (s : Snapshot F)
      → IsFleetView (with_inverters fl db hdr found s)
  unfolding with_inverters live_system_power_w
  with_inverters-IsFleetView db hdr found s =
      let invs = join_all (joins_of db) found in
      record {
        counted = ap pos (count_all-no_stats invs);
        powered =
            ap i32_of_ℤ (sum_online_power-online_power (pos 0) invs ∙ zero_add (online_power invs));
        bounded = λ h.
            rw (count_all-has_temp (no_stats fl) invs (inl h))
              (count_all-IsUpperTemperature (no_stats fl) invs);
        attained = λ h.
            rw (count_all-has_temp (no_stats fl) invs (inl h)) (no_stats-HasTemperature invs h);
      }

  -- A Build without an error has read a file of inverters.
  pub build-read :
      (p : Parsers fl) (read : ReadFile) (open_file : Str → Option (Bool × Str))
      (db : Option (Answers F)) (b : Builder)
      → (build fl p read open_file db b).1 ≡ true
      → (hdr : ParamsHeader p.Time) × (invs : List (Inverter F)) × (load_params_file fl p
            (open_file b.params_file)
          ≡ some (hdr, inr invs))
        × ((build fl p read open_file db b).0
            ≡ with_inverters fl db hdr invs (before_params fl read p.int_size db b))
  unfolding build
  build-read p read open_file db b h =
      elim (Option-cases (load_params_file fl p (open_file b.params_file))) [
        | inl e ↦ absurd (ground (arith, h, e))
        | inr ((hdr, inl err), e) ↦ absurd (ground (arith, h, e))
        | inr ((hdr, inr invs), e) ↦ (hdr, invs, e, rw (build, e) refl)
      ]

  -- Of every snapshot that Build returns without an error: the online count is the number of its
  -- inverters that are online, the system power is the int32 of the sum of those inverters' powers,
  -- and where any is online, the maximum temperature is the temperature of one of them and no other
  -- that is online is hotter.
  pub build-IsFleetView :
      (p : Parsers fl) (read : ReadFile) (open_file : Str → Option (Bool × Str))
      (db : Option (Answers F)) (b : Builder)
      → (build fl p read open_file db b).1 ≡ true
      → IsFleetView (build fl p read open_file db b).0
  build-IsFleetView p read open_file db b h =
      let (hdr, invs, _, e) = build-read p read open_file db b h in
      rw e (with_inverters-IsFleetView db hdr invs (before_params fl read p.int_size db b))

  pub operating_state-IsFleetView :
      (s : Snapshot F)
      → IsFleetView s
      → aggregate_operating_state s.inverter_online_count s.system_power_w ≡ (
          if online_count s.inverters == 0
          then st_sleep
          else if ltb_ℤ (pos 0) (i32_of_ℤ (online_power s.inverters))
          then st_mppt
          else st_standby)
  unfolding aggregate_operating_state
  operating_state-IsFleetView s v = rw (v.counted, v.powered) (ground arith)
