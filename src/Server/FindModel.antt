-- ===== src/Server/FindModel.antt =====
-- findModelInBank of internal/server/server.go.
pub mod Lookup
pub mod Termination
use apsystems_sunspec.Base.{
  ℕ, zero, suc, ◌+◌, Option, none, some, ◌||◌, length, ltb, leb, ◌==◌, if◌then◌else◌,
}
use apsystems_sunspec.Base.Word.{u16}
use apsystems_sunspec.Sunspec.Bank.{Bank, at, end_model_id}

pub data Walk : Type 0 where
  found : ℕ → Walk
  missing : Walk
  out_of_fuel : Walk

-- The loop, over uint16 addresses.
unfoldable pub walk : ℕ → Bank → ℕ → ℕ → ℕ → Walk
walk zero bank id cur end = out_of_fuel
walk (suc fuel) bank id cur end =
    let next = u16 (cur + 2 + at bank (u16 (cur + 1))) in
    let rest = walk fuel bank id next end in
    if ltb (u16 (cur + 1)) end
    then (if at bank cur == end_model_id
        then missing
        else if at bank cur == id
        then found cur
        else if leb next cur || ltb end next
        then missing
        else rest)
    else missing

abbrev pub address : Walk → Option ℕ
address (found a) = some a
address missing = none
address out_of_fuel = none

-- The addresses grow, so 65536 rounds are enough.
abbrev pub walk_fuel : ℕ
walk_fuel = 65536

unfoldable pub find_model_in_bank : Bank → ℕ → Option ℕ
find_model_in_bank bank id =
    address
      (walk walk_fuel bank id (u16 (bank.base + 2)) (u16 (bank.base + u16 (length bank.regs))))
