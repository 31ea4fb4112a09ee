-- ===== src/Source/Database.antt =====
-- The SQLite database.db as internal/source/writer.go uses it. The engine is not part of the
-- repository: `Database` is what a statement may do, and `DatabaseLaws` what SQL documents of the
-- three statements, over the primary keys `id` of turn_on_off and `(id, parameter_name)` of
-- set_protection_parameters_inverter.
use apsystems_sunspec.Base.{
  ℕ, ◌≡◌, refl, Bool, true, false, Option, some, none, Str, str_eq, if◌then◌else◌, ◌&&◌,
}
use apsystems_sunspec.Base.Int.{ℤ}

-- The statements of writer.go with their bound values.
pub data Stmt (F : Type 0) : Type 0 where
  -- UPDATE power SET limitedpower = ?, flag = 1 WHERE id = ?
  update_power : Str → ℤ → Stmt F
  -- INSERT OR REPLACE INTO turn_on_off (id, set_flag) VALUES (?, ?)
  replace_turn_on_off : Str → ℕ → Stmt F
  -- INSERT OR REPLACE INTO set_protection_parameters_inverter … VALUES (?, ?, ?, 1)
  replace_param : Str → Str → F → Stmt F

-- `exec` gives false for an error, such as a locked database.
pub record Database (F : Type 0) : Type 1 where
  pub Db : Type 0
  pub exec : Stmt F → Db → Bool × Db

-- An UPDATE changes the rows that are there.
abbrev pub updated : Option ℤ → ℤ → Option ℤ
updated none w = none
updated (some old) w = some w

pub updated-updated : (o : Option ℤ) (w : ℤ) → updated (updated o w) w ≡ updated o w
updated-updated none w = refl
updated-updated (some old) w = refl

pub record DatabaseLaws {F : Type 0} (d : Database F) : Type 0 where
  pub limit_of : d.Db → Str → Option ℤ
  pub switch_of : d.Db → Str → Option ℕ
  pub param_of : d.Db → Str → Str → Option F
  -- A statement that fails changes nothing.
  pub exec_failed : (q : Stmt F) (db : d.Db) → (d.exec q db).0 ≡ false → (d.exec q db).1 ≡ db
  pub limit_of-update_power :
      (i j : Str) (w : ℤ) (db : d.Db)
      → (d.exec (update_power i w) db).0 ≡ true
      → limit_of (d.exec (update_power i w) db).1 j
        ≡ (if str_eq i j then updated (limit_of db j) w else limit_of db j)
  pub limit_of-replace_turn_on_off :
      (i j : Str) (n : ℕ) (db : d.Db)
      → limit_of (d.exec (replace_turn_on_off i n) db).1 j ≡ limit_of db j
  pub switch_of-replace_turn_on_off :
      (i j : Str) (n : ℕ) (db : d.Db)
      → (d.exec (replace_turn_on_off i n) db).0 ≡ true
      → switch_of (d.exec (replace_turn_on_off i n) db).1 j
        ≡ (if str_eq i j then some n else switch_of db j)
  pub switch_of-update_power :
      (i j : Str) (w : ℤ) (db : d.Db)
      → switch_of (d.exec (update_power i w) db).1 j ≡ switch_of db j
  pub param_of-replace_param :
      (i j c k : Str) (x : F) (db : d.Db)
      → (d.exec (replace_param i c x) db).0 ≡ true
      → param_of (d.exec (replace_param i c x) db).1 j k
        ≡ (if str_eq i j && str_eq c k then some x else param_of db j k)
