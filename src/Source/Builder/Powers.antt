-- ===== src/Source/Builder/Powers.antt =====
-- The powers of the inverters in a snapshot of internal/source/snapshot_builder.go.
use apsystems_sunspec.Base.{
  ◌≡◌, sym, ap, ◌∙◌, Bool, true, Option, List, [], ◌∷◌, Str, All, Option-cases, lookup, arith,
}
use apsystems_sunspec.Floats.{Floats}
use apsystems_sunspec.Source.Builder.{Builder, ReadFile, with_inverters, build}
use apsystems_sunspec.Source.Joins.{Answers, Joins, joins_of, join_inverter, join_all}
use apsystems_sunspec.Source.Builder.Fleet.{build-read}
use apsystems_sunspec.Source.Inverter.{Inverter, panel_powers}
use apsystems_sunspec.Source.Params.{Parsers}
use apsystems_sunspec.Source.Params.Power.{sum, IsSummed, load_params_file-IsSummed}

module _ (fl : Floats) (p : Parsers fl) where
  open fl use {F}

  join_inverter-kept :
      (j : Joins) (inv : Inverter F)
      → let inv' = join_inverter j inv in
        (inv'.online ≡ inv.online)
        × (inv'.ac_power_w ≡ inv.ac_power_w)
        × (panel_powers inv' ≡ panel_powers inv)
  unfolding join_inverter panel_powers
  join_inverter-kept j inv = ground (
    arith,
    Option-cases (lookup inv.uid j.ev_by_uid),
    Option-cases (lookup inv.uid j.lim_by_uid),
    Option-cases (lookup inv.uid j.sig_by_uid),
    Option-cases (lookup inv.uid j.meta_by_uid),
  )

  join_inverter-IsSummed :
      (j : Joins) (inv : Inverter F) → IsSummed fl p inv → IsSummed fl p (join_inverter j inv)
  join_inverter-IsSummed j inv h on =
      let (o, w, powers) = join_inverter-kept j inv in w ∙ h (sym o ∙ on) ∙ ap sum (sym powers)

  join_all-IsSummed :
      (j : Joins) (invs : List (Inverter F))
      → All (IsSummed fl p) invs
      → All (IsSummed fl p) (join_all j invs)
  unfolding join_all
  join_all-IsSummed j [] h = tt
  join_all-IsSummed j (inv ∷ invs) h =
      (join_inverter-IsSummed j inv h.0, join_all-IsSummed j invs h.1)

  -- In a snapshot that Build returns without an error, the power of each inverter that is online is
  -- the sum of the powers that PanelPowers gives of it: 0 when its row is too short for its type, or
  -- its type is not known.
  pub build-IsSummed :
      (read : ReadFile) (open_file : Str → Option (Bool × Str)) (db : Option (Answers F))
      (b : Builder)
      → (build fl p read open_file db b).1 ≡ true
      → All (IsSummed fl p) (build fl p read open_file db b).0.inverters
  unfolding with_inverters
  build-IsSummed read open_file db b h =
      let (hdr, invs, e, s) = build-read fl p read open_file db b h in
      rw s (
        join_all-IsSummed (joins_of db) invs
          (load_params_file-IsSummed fl p (open_file b.params_file) hdr invs e))
