-- ===== src/Server/FindModel/Termination.antt =====
-- The loop of findModelInBank, internal/server/server.go, ends on every bank.
use apsystems_sunspec.Base.{ℕ, zero, suc, ◌+◌, ◌≤◌, ◌≢◌, length, arith}
use apsystems_sunspec.Base.Word.{u16}
use apsystems_sunspec.Sunspec.Bank.{Bank, at}
use apsystems_sunspec.Server.FindModel.{out_of_fuel, walk, walk_fuel}

-- The fuel falls by one a round, and the address grows by at least one.
walk-ends :
    (fuel : ℕ) (bank : Bank) (id cur end : ℕ)
    → end ≤ cur + fuel
    → walk (suc fuel) bank id cur end ≢ out_of_fuel
unfolding walk
walk-ends zero bank id cur end enough = ground arith
walk-ends (suc fuel) bank id cur end enough =
    ground (arith, walk-ends fuel bank id (u16 (cur + 2 + at bank (u16 (cur + 1)))) end)

-- Whatever registers a bank holds, malformed lengths and addresses that wrap included, the walk
-- ends by its own tests and never by its fuel.
pub walk-walk_fuel :
    (bank : Bank) (id : ℕ)
    → walk walk_fuel bank id (u16 (bank.base + 2)) (u16 (bank.base + u16 (length bank.regs)))
      ≢ out_of_fuel
walk-walk_fuel bank id =
    walk-ends 65535 bank id (u16 (bank.base + 2)) (u16 (bank.base + u16 (length bank.regs)))
      (omega arith)
