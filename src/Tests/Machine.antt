-- ===== src/Tests/Machine.antt =====
-- Parameters of the model at which the theorems are tried: fixed-point numbers for float64, a database
-- of three tables, and a network on which every text is an address.
use apsystems_sunspec.Base.{
  ℕ, ◌*◌, ◌/◌, ◌%◌, ◌^◌, ◌≡◌, refl, Bool, true, false, ◌&&◌, Option, some, none, [], Str, codes,
  str_eq, is_empty, if◌then◌else◌, arith,
}
use apsystems_sunspec.Base.Int.{ℤ, pos, pos_part, neg_part, ◌+ℤ◌, ◌-ℤ◌, ◌*ℤ◌, quot, ltb_ℤ, leb_ℤ}
use apsystems_sunspec.Config.{Net}
use apsystems_sunspec.Floats.{Floats}
use apsystems_sunspec.Source.Database.{
  Stmt, Database, DatabaseLaws, updated, update_power, replace_turn_on_off, replace_param,
}

abbrev scale : ℤ
scale = pos 10000

abbrev whole : ℤ → ℕ
whole z = pos_part z / 10000

-- Four decimal places.
abbrev pub fixed_point : Floats
fixed_point = record {
  F = ℤ;
  lit = λ m k. pos (m * 10000 / 10 ^ k);
  of_ℤ = λ z. z *ℤ scale;
  add = λ x y. x +ℤ y;
  sub = λ x y. x -ℤ y;
  mul = λ x y. quot (x *ℤ y) scale;
  div = λ x y. quot (x *ℤ scale) y;
  abs = λ x. if ltb_ℤ x (pos 0) then pos (neg_part x) else x;
  lt = ltb_ℤ;
  le = leb_ℤ;
  to_u16 = λ x. whole x % 65536;
  to_u32 = λ x. whole x % 4294967296;
  to_u64 = whole;
  to_int = λ x. quot x scale;
  F32 = ℤ;
  to_f32 = λ x. x;
  f32_of_ℤ = λ z. z *ℤ scale;
  f32_div = λ x y. quot (x *ℤ scale) y;
  f32_pos = λ x. ltb_ℤ (pos 0) x;
  f32_bits = λ x. whole x % 4294967296;
}

pub record Tables : Type 0 where
  pub limits : Str → Option ℤ
  pub switches : Str → Option ℕ
  pub params : Str → Str → Option ℤ

abbrev exec_stmt : Stmt ℤ → Tables → Bool × Tables
exec_stmt (update_power i w) t =
    (true, record t { limits = λ j. if str_eq i j then updated (t.limits j) w else t.limits j })
exec_stmt (replace_turn_on_off i n) t =
    (true, record t { switches = λ j. if str_eq i j then some n else t.switches j })
exec_stmt (replace_param i c x) t =
    (true, record t { params = λ j k. if str_eq i j && str_eq c k then some x else t.params j k })

abbrev pub tables : Database ℤ
tables = record { Db = Tables; exec = exec_stmt }

exec_stmt_succeeds : (q : Stmt ℤ) (t : Tables) → (exec_stmt q t).0 ≡ true
exec_stmt_succeeds (update_power i w) t = refl
exec_stmt_succeeds (replace_turn_on_off i n) t = refl
exec_stmt_succeeds (replace_param i c x) t = refl

pub exec_never_fails : (q : Stmt ℤ) (t : Tables) → (exec_stmt q t).0 ≡ false → (exec_stmt q t).1 ≡ t
exec_never_fails q t h = absurd (ground (arith, h, exec_stmt_succeeds q t))

abbrev pub tables-DatabaseLaws : DatabaseLaws tables
tables-DatabaseLaws = record {
  limit_of = λ t i. t.limits i;
  switch_of = λ t i. t.switches i;
  param_of = λ t i c. t.params i c;
  exec_failed = exec_never_fails;
  limit_of-update_power = λ i j w db ok. refl;
  limit_of-replace_turn_on_off = λ i j n db. refl;
  switch_of-replace_turn_on_off = λ i j n db ok. refl;
  switch_of-update_power = λ i j w db. refl;
  param_of-replace_param = λ i j c k x db ok. refl;
}

-- A text is its own address; the loopback is "::1", and the one interface has no other address.
abbrev pub flat_net : Net
flat_net = record {
  Ip = Str;
  Cidr = Str;
  split_host_port = λ s. none;
  parse_ip = λ s. if is_empty s then none else some s;
  parse_cidr = λ s. none;
  is_loopback = λ ip. str_eq ip (codes "::1");
  equal = str_eq;
  contains_ip = λ c ip. str_eq c ip;
  base_ip = λ c. c;
  interface_subnets = some [];
}
