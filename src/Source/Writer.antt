-- ===== src/Source/Writer.antt =====
-- internal/source/writer.go: the control actions, one SQL statement each. The checks that the
-- handle is not nil are the handler's, which has none to call without one.
use apsystems_sunspec.Base.{
  ◌≡◌, refl, arith, Bool, Option, some, none, Str, is_empty, List, [], ◌∷◌, ◌||◌, if◌then◌else◌,
}
use apsystems_sunspec.Base.Int.{ℤ, pos, ltb_ℤ}
use apsystems_sunspec.Source.Database.{
  Stmt, Database, update_power, replace_turn_on_off, replace_param,
}

-- Why an action or a write was refused.
pub data Error : Type 0 where
  panel_range uid_required name_required exec_failed : Error
  no_inverters aggregate_only_read unmapped_unit : Error
  wrong_window delay_range : Error
  read_only nothing_written trip_unknown start_not_above_nominal start_above_trip slope_range :
      Error
  hz_not_positive route_unsupported route_grid_profile : Error

abbrev pub min_panel_limit_w : ℤ
min_panel_limit_w = pos 20

abbrev pub max_panel_limit_w : ℤ
max_panel_limit_w = pos 500

-- A method that returns an error, or nil, and leaves a new state behind.
abbrev pub Action : Type 0 → Type 0
Action S = S → Option Error × S

-- `if err != nil { return err }`, then the rest.
abbrev pub after : {S : Type 0} → Option Error × S → Action S → Option Error × S
after (some e, s) rest = (some e, s)
after (none, s) rest = rest s

-- A chain without an error has none in its first part.
pub after-none :
    {S : Type 0} (r : Option Error × S) (rest : Action S)
    → (after r rest).0 ≡ none
    → (r.0 ≡ none) × (after r rest ≡ rest r.1)
after-none (none, s) rest h = (refl, refl)
after-none (some e, s) rest h = absurd (ground (arith, h))

-- `for _, uid := range uids`, left at the first error.
unfoldable pub for_each : {S : Type 0} → (Str → Action S) → List Str → Action S
for_each f [] s = (none, s)
for_each f (uid ∷ uids) s = after (f uid s) (λ s'. for_each f uids s')

module _ {F : Type 0} (d : Database F) where
  open d use {Db, exec}

  unfoldable pub exec_context : Stmt F → Action Db
  exec_context q db = let (ok, db') = exec q db in (if ok then none else some exec_failed, db')

  unfoldable pub set_max_power : Str → ℤ → Action Db
  unfolding exec_context
  set_max_power uid panel_w db =
      if ltb_ℤ panel_w min_panel_limit_w || ltb_ℤ max_panel_limit_w panel_w
      then (some panel_range, db)
      else exec_context (update_power uid panel_w) db

  unfoldable pub set_turn_on_off : Str → Bool → Action Db
  unfolding exec_context
  set_turn_on_off uid on = exec_context (replace_turn_on_off uid (if on then 1 else 0))

  unfoldable pub restore_full_power : Str → Action Db
  unfolding set_max_power
  restore_full_power uid = set_max_power uid max_panel_limit_w

  unfoldable pub set_protection_param : Str → Str → F → Action Db
  unfolding exec_context
  set_protection_param uid name value db =
      if is_empty uid
      then (some uid_required, db)
      else if is_empty name
      then (some name_required, db)
      else exec_context (replace_param uid name value) db
