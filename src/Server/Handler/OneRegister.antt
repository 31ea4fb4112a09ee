-- ===== src/Server/Handler/OneRegister.antt =====
-- A read of one register of a bank, internal/server/server.go.
use apsystems_sunspec.Base.{
  ℕ, ◌+◌, ◌<◌, ◌≡◌, refl, ap, true, Option, some, [], ◌∷◌, Str, length, arith,
}
use apsystems_sunspec.Sunspec.Bank.{Bank, at, slice, slice_from, contains}
use apsystems_sunspec.Server.Handler.{Request, Banks, registers, bank_for, handle_read}

abbrev pub read_unit : Str → ℕ → ℕ → Request
read_unit client unit addr = record {
  client_addr = client;
  unit_id = unit;
  addr = addr;
  quantity = 1;
  args = [];
}

contains-one :
    (b : Bank) (i : ℕ) → b.base ≡ 40000 → i < length b.regs → contains b (40000 + i) 1 ≡ true
unfolding contains
contains-one b i base h = ground (arith, base, h)

slice-one : (b : Bank) (a : ℕ) → a < 65536 → slice b a 1 ≡ at b a ∷ []
unfolding slice slice_from
slice-one b a h = ap (λ m. at b m ∷ []) (omega (arith, h))

pub handle_read-one :
    (b : Bank) (client : Str) (unit i : ℕ) (banks : Option Banks)
    → b.base ≡ 40000
    → i < 1000
    → i < length b.regs
    → bank_for banks unit ≡ some b
    → handle_read banks (read_unit client unit (40000 + i)) ≡ registers (at b (40000 + i) ∷ [])
unfolding handle_read
handle_read-one b client unit i banks base small h e =
    rw (handle_read, e, contains-one b i base h, slice-one b (40000 + i) (omega (arith, small)))
      refl
