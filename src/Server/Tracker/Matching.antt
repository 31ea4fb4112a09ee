-- ===== src/Server/Tracker/Matching.antt =====
-- matchesAll and protGet of internal/server/write_tracker.go, and what the writers expect of it.
use apsystems_sunspec.Base.{
  ℕ, ◌≡◌, refl, ◌↔◌, true, false, some, none, List, [], ◌∷◌, Str, codes, lookup, All, arith, ◌⊎◌,
  inl, inr, ◌≢◌, Option-cases,
}
use apsystems_sunspec.Floats.{Floats}
use apsystems_sunspec.Source.Database.{Database}
use apsystems_sunspec.Source.Protection.{ProtectionParams}
use apsystems_sunspec.Server.FreqWattCurveWriter.{
  hz_of_wire, expected_points, freq_watt_curve_hz_points,
}
use apsystems_sunspec.Server.Tracker.{prot_get, prot_fields, matches_one, matches_each, matches_all}
use apsystems_sunspec.Server.World.{write_touches, read_field}

module _ (fl : Floats) where
  open fl use {F, lit, lt, sub, abs}

  -- A reported value lies within the tolerance of the expected one.
  abbrev pub IsMatch : ProtectionParams F → Str × F → Type 0
  IsMatch prot w =
      (x : F) × (prot_get fl prot w.0 ≡ some x) × (lt (lit 5 2) (abs (sub x w.1)) ≡ false)

  matches_one_iff :
      (prot : ProtectionParams F) (code : Str) (x : F)
      → (matches_one fl prot code x ≡ true) ↔ IsMatch prot (code, x)
  unfolding matches_one
  matches_one_iff prot code x = elim (Option-cases (prot_get fl prot code)) [
    | inl e ↦ ground (arith, e)
    | inr (y, e) ↦ ground (arith, e)
  ]

  matches_each_iff :
      (prot : ProtectionParams F) (want : List (Str × F))
      → (matches_each fl prot want ≡ true) ↔ All (IsMatch prot) want
  unfolding matches_each
  matches_each_iff prot [] = (λ h. tt, λ h. refl)
  matches_each_iff prot ((code, x) ∷ want) =
      ground (arith, matches_one_iff prot code x, matches_each_iff prot want)

  -- A set of expectations is met exactly when there is one at all, and the inverter reports each of
  -- their codes with a value within the tolerance.
  pub matches_all_iff :
      (prot : ProtectionParams F) (want : List (Str × F))
      → (matches_all fl prot want ≡ true) ↔ ((want ≢ []) × All (IsMatch prot) want)
  unfolding matches_all
  matches_all_iff prot [] = ground arith
  matches_all_iff prot (w ∷ want) =
      ground (arith, matches_one_iff prot w.0 w.1, matches_each_iff prot want)

  prot_get-unknown :
      (prot : ProtectionParams F) (code : Str)
      → lookup code (prot_fields fl prot) ≡ none
      → prot_get fl prot code ≡ none
  unfolding prot_get
  prot_get-unknown prot code h = ground (arith, h)

  dh_unknown : (prot : ProtectionParams F) → prot_get fl prot (codes "DH") ≡ none
  unfolding prot_fields lookup
  dh_unknown prot = prot_get-unknown prot (codes "DH") refl

  di_unknown : (prot : ProtectionParams F) → prot_get fl prot (codes "DI") ≡ none
  unfolding prot_fields lookup
  di_unknown prot = prot_get-unknown prot (codes "DI") refl

  cb_unknown : (prot : ProtectionParams F) → prot_get fl prot (codes "CB") ≡ none
  unfolding prot_fields lookup
  cb_unknown prot = prot_get-unknown prot (codes "CB") refl

  matches_one-unknown :
      (prot : ProtectionParams F) (code : Str) (x : F)
      → prot_get fl prot code ≡ none
      → matches_one fl prot code x ≡ false
  unfolding matches_one
  matches_one-unknown prot code x h = ground (arith, h)

  -- A write of Model 134 that touches one of its first three frequencies is never matched by what
  -- the inverter reports, whatever it reports: their codes DH, DI and CB are no cases of protGet.
  pub curve-unmatched :
      (d : Database F) (prot : ProtectionParams F) (addr_offset : ℕ) (regs : List ℕ)
      → (write_touches addr_offset regs 11 ≡ true)
        ⊎ ((write_touches addr_offset regs 13 ≡ true) ⊎ (write_touches addr_offset regs 15 ≡ true))
      → matches_all fl prot (expected_points fl d addr_offset regs freq_watt_curve_hz_points)
        ≡ false
  unfolding expected_points matches_all matches_each
  curve-unmatched d prot addr_offset regs touched =
      let hz = λ (off : ℕ). hz_of_wire fl d (read_field addr_offset regs off) in
      ground (
        arith,
        touched,
        matches_one-unknown prot (codes "DH") (hz 11) (dh_unknown prot),
        matches_one-unknown prot (codes "DI") (hz 13) (di_unknown prot),
        matches_one-unknown prot (codes "CB") (hz 15) (cb_unknown prot),
      )
