-- ===== src/Server/Refresh/Units.antt =====
-- The map of banks that internal/server/server.go publishes.
use apsystems_sunspec.Base.{
  ℕ, zero, suc, ◌+◌, ◌-◌, ◌≤◌, ◌<◌, ◌≡◌, refl, ap, ◌∙◌, sym, Option, some, none, List, [], ◌∷◌,
  length, get_elem?, ◌==◌, if◌then◌else◌, arith, ◌⊎◌, inl, inr, ltb, ltb→lt, Bool-cases,
  Option-cases, get_elem?-none, get_elem?-some,
}
use apsystems_sunspec.Base.Word.{u8}
use apsystems_sunspec.Floats.{Floats}
use apsystems_sunspec.Source.Inverter.{Inverter, NameplateTable}
use apsystems_sunspec.Source.Snapshot.{Snapshot}
use apsystems_sunspec.Sunspec.Bank.{Bank}
use apsystems_sunspec.Sunspec.Options.{Options}
use apsystems_sunspec.Sunspec.Encoder.{encode}
use apsystems_sunspec.Sunspec.PerInverter.{encode_per_inverter}
use apsystems_sunspec.Server.Tracker.{WriteTracker, protection_at}
use apsystems_sunspec.Server.Handler.{Banks, bank_at, bank_for}
use apsystems_sunspec.Server.Refresh.{set_bank, bank_of_inverter, add_banks, tracked, build_banks}

bank_at-set_bank :
    (uid k : ℕ) (b : Bank) (m : Banks)
    → bank_at k (set_bank uid b m) ≡ (if uid == k then some b else bank_at k m)
unfolding bank_at set_bank
bank_at-set_bank uid k b [] = refl
bank_at-set_bank uid k b ((u, c) ∷ m) = ground (arith, bank_at-set_bank uid k b m)

module _ (fl : Floats) (tbl : NameplateTable) (snap : Snapshot fl.F) (opt : Options) where
  open fl use {F}

  -- A unit that the loop does not reach keeps its bank.
  add_banks-other :
      (k i : ℕ) (invs : List (Inverter F)) (m : Banks)
      → i + length invs ≤ 254
      → (k < 2 + i) ⊎ (2 + i + length invs ≤ k)
      → bank_at k (add_banks fl tbl snap opt i invs m) ≡ bank_at k m
  unfolding add_banks
  add_banks-other k i [] m few out = refl
  add_banks-other k i (inv ∷ invs) m few out =
      add_banks-other k (i + 1) invs _ (omega arith) (omega arith)
      ∙ (bank_at-set_bank (u8 (2 + i)) k (bank_of_inverter fl tbl snap opt i inv) m ∙ ground arith)

  add_banks-own :
      (j i n : ℕ) (invs : List (Inverter F)) (m : Banks) (inv : Inverter F)
      → n ≡ i + j
      → i + length invs ≤ 254
      → get_elem? invs j ≡ some inv
      → bank_at (2 + n) (add_banks fl tbl snap opt i invs m)
        ≡ some (bank_of_inverter fl tbl snap opt n inv)
  unfolding add_banks
  add_banks-own j i n [] m inv e few here = absurd (ground (arith, here))
  add_banks-own zero i n (x ∷ invs) m inv e few here =
      let ei : n ≡ i = omega arith in
      rw ei (
        add_banks-other (2 + i) (i + 1) invs _ (omega arith) (inl (omega arith))
        ∙ (bank_at-set_bank (u8 (2 + i)) (2 + i) (bank_of_inverter fl tbl snap opt i x) m
            ∙ ground (arith, here)))
  add_banks-own (suc j) i n (x ∷ invs) m inv e few here =
      add_banks-own j (i + 1) n invs _ inv (omega arith) (omega arith) here

-- The inverter that a unit identifier stands for.
abbrev pub inverter_at : {F : Type 0} → Snapshot F → ℕ → Option (Inverter F)
inverter_at snap k = if ltb k 2 then none else get_elem? snap.inverters (k - 2)

module _ (fl : Floats) (tbl : NameplateTable) (snap : Snapshot fl.F) (opt : Options) where
  open fl use {F}

  inverter_at-none : (k : ℕ) → inverter_at snap k ≡ none → (k < 2) ⊎ (2 + length snap.inverters ≤ k)
  inverter_at-none k h = elim (Bool-cases (ltb k 2)) [
    | inl e ↦ inl (ltb→lt k 2 e)
    | inr e ↦ ground (arith, e, h, get_elem?-none snap.inverters (k - 2))
  ]

  bank_for-hit :
      (m : Banks) (k : ℕ) (b : Bank) → bank_at k m ≡ some b → bank_for (some m) k ≡ some b
  unfolding bank_for
  bank_for-hit m k b h = ground (arith, h)

  bank_for-default :
      (m : Banks) (k : ℕ) (b : Bank)
      → bank_at k m ≡ (if 1 == k then some b else none)
      → bank_at 1 m ≡ some b
      → bank_for (some m) k ≡ some b
  unfolding bank_for
  bank_for-default m k b h own = ground (arith, h, own)

  abbrev aggregate_bank : WriteTracker F → Bank
  aggregate_bank wt = encode fl tbl snap (tracked fl tbl opt wt)

  -- The bank of a unit, from the inverter that it stands for.
  abbrev pub unit_bank : WriteTracker F → ℕ → Option (Inverter F) → Bank
  unit_bank wt k none = aggregate_bank wt
  unit_bank wt k (some inv) =
      encode_per_inverter fl tbl inv k (tracked fl tbl opt wt) (protection_at fl snap inv.uid)

  abbrev first_banks : WriteTracker F → Banks
  first_banks wt = (1, aggregate_bank wt) ∷ []

  own_bank :
      (wt : WriteTracker F) (k : ℕ) (inv : Inverter F)
      → length snap.inverters ≤ 254
      → inverter_at snap k ≡ some inv
      → bank_at k (build_banks fl tbl snap opt wt)
        ≡ some (
            encode_per_inverter fl tbl inv k
              (tracked fl tbl opt wt)
              (protection_at fl snap inv.uid))
  unfolding build_banks bank_of_inverter
  own_bank wt k inv few e =
      let big : 2 ≤ k = ground (arith, e) in
      let here : get_elem? snap.inverters (k - 2) ≡ some inv = ground (arith, e) in
      let room = get_elem?-some snap.inverters (k - 2) inv here in
      let own =
        add_banks-own fl tbl snap (tracked fl tbl opt wt) (k - 2) 0 (k - 2) snap.inverters
          (first_banks wt) inv (omega arith) (omega arith) here in
      let back : 2 + (k - 2) ≡ k = omega arith in
      let small : u8 (2 + (k - 2)) ≡ k = omega arith in
      ap (λ i. bank_at i (build_banks fl tbl snap opt wt)) (sym back)
      ∙ (own
          ∙ ap
              (λ u. some (
                encode_per_inverter fl tbl inv u (tracked fl tbl opt wt)
                  (protection_at fl snap inv.uid)))
              small)

  -- With at most 254 inverters, unit 2 + j answers with the bank of the
  -- j-th inverter, encoded with the write results of the tracker and the inverter's own protection
  -- row, and every other unit, 1 among them, answers with the aggregate bank.
  pub bank_for-build_banks :
      (wt : WriteTracker F) (k : ℕ)
      → length snap.inverters ≤ 254
      → bank_for (some (build_banks fl tbl snap opt wt)) k
        ≡ some (unit_bank wt k (inverter_at snap k))
  unfolding build_banks bank_at bank_of_inverter
  bank_for-build_banks wt k few =
      let opt' = tracked fl tbl opt wt in
      let other = λ (j : ℕ).
        add_banks-other fl tbl snap opt' j 0 snap.inverters (first_banks wt) (omega arith) in
      elim (Option-cases (inverter_at snap k)) [
        | inl e ↦ rw e (
            bank_for-default _ k (aggregate_bank wt) (other k (inverter_at-none k e))
              (other 1 (inl (omega arith))))
        | inr (inv, e) ↦ rw e (bank_for-hit _ k _ (own_bank wt k inv few e))
      ]
