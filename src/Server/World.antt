-- ===== src/Server/World.antt =====
-- What the write handlers of internal/server change: the database, the reversion timers and the
-- write tracker; and the fields of a partial write, from internal/server/controls_writer.go.
use apsystems_sunspec.Base.{
  ℕ, ◌+◌, ◌-◌, ◌*◌, Bool, true, false, Option, none, List, length, get_or, get_elem?, ltb, leb,
  if◌then◌else◌,
}
use apsystems_sunspec.Base.Word.{u16}
use apsystems_sunspec.Source.Database.{Database}
use apsystems_sunspec.Source.Inverter.{Inverter}
use apsystems_sunspec.Source.Snapshot.{Snapshot}
use apsystems_sunspec.Source.Writer.{Error, Action}
use apsystems_sunspec.Server.Reverter.{Reverter}
use apsystems_sunspec.Server.Tracker.{WriteTracker}

-- `clock` is the time of the request, in nanoseconds.
pub record World {F : Type 0} (d : Database F) : Type 0 where
  pub db : d.Db
  pub reverter : Reverter
  pub tracker : WriteTracker F
  pub clock : ℕ

-- A result that leaves a new database behind.
abbrev pub with_db :
    {F : Type 0} {d : Database F} → World d → Option Error × d.Db → Option Error × World d
with_db w (err, db) = (err, record w { db = db })

-- An action on the database alone.
abbrev pub on_db : {F : Type 0} {d : Database F} → Action d.Db → Action (World d)
on_db act w = with_db w (act w.db)

unfoldable pub write_touches : ℕ → List ℕ → ℕ → Bool
write_touches addr_offset regs field_off =
    if ltb field_off addr_offset
    then false
    else if leb (u16 (length regs)) (field_off - addr_offset)
    then false
    else true

unfoldable pub read_field : ℕ → List ℕ → ℕ → ℕ
unfolding write_touches
read_field addr_offset regs field_off =
    if write_touches addr_offset regs field_off then get_or regs (field_off - addr_offset) 0 else 0

-- The uint32 of a field's two registers: uint32(hi)<<16 | uint32(lo).
abbrev pub u32_of : ℕ → ℕ → ℕ
u32_of hi lo = hi * 65536 + lo

-- The inverter of a unit from 2 on.
unfoldable pub inverter_of_unit : {F : Type 0} → Snapshot F → ℕ → Option (Inverter F)
inverter_of_unit snap uid = if ltb uid 2 then none else get_elem? snap.inverters (uid - 2)
