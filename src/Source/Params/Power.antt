-- ===== src/Source/Params/Power.antt =====
-- guessACFromTail of internal/source/params.go against PanelPowers of internal/source/snapshot.go.
use apsystems_sunspec.Base.{
  All, Option, some, ◌≡◌, sym, ap, ◌∙◌, Bool, true, List, [], ◌∷◌, inr, Str, get_or, arith,
}
use apsystems_sunspec.Base.Int.{ℤ, pos, ◌+ℤ◌}
use apsystems_sunspec.Base.Int.Sums.{add_zero, add_assoc}
use apsystems_sunspec.Floats.{Floats}
use apsystems_sunspec.Source.Inverter.{Inverter, tail_powers, panel_powers}
use apsystems_sunspec.Source.Params.{
  Parsers, ParamsHeader, load_params_file, guess_ac_from_tail, offline_inverter, reported_inverter,
}
use apsystems_sunspec.Source.Params.Every.{load_params_file-All}

abbrev pub sum : List ℤ → ℤ
sum [] = pos 0
sum (z ∷ zs) = z +ℤ sum zs

sum_of_two : (x y : ℤ) → x +ℤ (y +ℤ pos 0) ≡ x +ℤ y
sum_of_two x y = ap (λ z. x +ℤ z) (add_zero y)

sum_of_four : (x y z w : ℤ) → x +ℤ (y +ℤ (z +ℤ (w +ℤ pos 0))) ≡ x +ℤ y +ℤ z +ℤ w
sum_of_four x y z w =
    ap (λ r. x +ℤ (y +ℤ r)) (sum_of_two z w)
    ∙ sym (add_assoc x y (z +ℤ w))
    ∙ sym (add_assoc (x +ℤ y) z w)

-- The power that is guessed of a row is the sum of its panels' powers.
guess_ac_from_tail-tail_powers :
    (code : Str) (tail : List ℤ) → (guess_ac_from_tail code tail).1 ≡ sum (tail_powers code tail)
unfolding guess_ac_from_tail tail_powers
guess_ac_from_tail-tail_powers code tail = ground (
  arith,
  sum_of_two (get_or tail 1 (pos 0)) (get_or tail 3 (pos 0)),
  sum_of_four (get_or tail 1 (pos 0)) (get_or tail 3 (pos 0)) (get_or tail 4 (pos 0))
      (get_or tail 5 (pos 0)),
)

module _ (fl : Floats) (p : Parsers fl) where
  open fl use {F}
  open p use {Time}

  -- An inverter that is online has the sum of its panels' powers as its power.
  abbrev pub IsSummed : Inverter F → Type 0
  IsSummed inv = inv.online ≡ true → inv.ac_power_w ≡ sum (panel_powers inv)

  reported_inverter-IsSummed :
      (uid : Str) (online : ℤ) (code : Str) (freq : F) (temp_raw : ℤ) (tail : List ℤ)
      → IsSummed (reported_inverter fl p uid online code freq temp_raw tail)
  unfolding panel_powers
  reported_inverter-IsSummed uid online code freq temp_raw tail h =
      ground (arith, h, guess_ac_from_tail-tail_powers code tail)

  offline_inverter-IsSummed : (uid code : Str) → IsSummed (offline_inverter fl p uid code)
  offline_inverter-IsSummed uid code h = absurd (ground (arith, h))

  pub load_params_file-IsSummed :
      (file : Option (Bool × Str)) (hdr : ParamsHeader Time) (invs : List (Inverter F))
      → load_params_file fl p file ≡ some (hdr, inr invs)
      → All IsSummed invs
  load_params_file-IsSummed =
      load_params_file-All fl p IsSummed offline_inverter-IsSummed reported_inverter-IsSummed
