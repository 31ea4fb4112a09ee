-- ===== src/Server/EnterServiceWriter/Delay.antt =====
-- What a write to Model 703 does, internal/server/enter_service_writer.go.
use apsystems_sunspec.Base.{
  ℕ, ◌≤◌, ◌≡◌, ◌≢◌, false, ◌&&◌, some, none, List, Str, codes, str_eq, length, get_or, leb,
  if◌then◌else◌, arith, Option-cases, inl, inr, sym, ap, ◌∙◌,
}
use apsystems_sunspec.Base.Int.{pos}
use apsystems_sunspec.Floats.{Floats}
use apsystems_sunspec.Source.Database.{Database, DatabaseLaws, replace_param}
use apsystems_sunspec.Source.Inverter.{Inverter}
use apsystems_sunspec.Source.Snapshot.{Snapshot}
use apsystems_sunspec.Source.Writer.{exec_context, set_protection_param}
use apsystems_sunspec.Server.EnterServiceWriter.{write_delay, enter_service_apply}
use apsystems_sunspec.Server.World.{World, u32_of, inverter_of_unit}

module _ (fl : Floats) (d : Database fl.F) (laws : DatabaseLaws d) where
  open fl use {F, of_ℤ}
  open laws use {param_of, exec_failed, param_of-replace_param}

  set_protection_param-refused :
      (uid name : Str) (x : F) (db : d.Db)
      → (set_protection_param d uid name x db).0 ≢ none
      → (set_protection_param d uid name x db).1 ≡ db
  unfolding set_protection_param exec_context
  set_protection_param-refused uid name x db h =
      ground (arith, h, exec_failed (replace_param uid name x) db)

  set_protection_param-written :
      (uid name i c : Str) (x : F) (db : d.Db)
      → (set_protection_param d uid name x db).0 ≡ none
      → param_of (set_protection_param d uid name x db).1 i c
        ≡ (if str_eq uid i && str_eq name c then some x else param_of db i c)
  unfolding set_protection_param exec_context
  set_protection_param-written uid name i c x db h =
      ground (arith, h, param_of-replace_param uid i name c x db)

  write_delay-refused :
      (inv_uid : Str) (addr_offset : ℕ) (regs : List ℕ) (w : World d)
      → (write_delay fl d inv_uid addr_offset regs w).0 ≢ none
      → (write_delay fl d inv_uid addr_offset regs w).1 ≡ w
  unfolding write_delay
  write_delay-refused inv_uid addr_offset regs w h =
      let x = of_ℤ (pos (u32_of (get_or regs 0 0) (get_or regs 1 0))) in
      ground (arith, h, set_protection_param-refused inv_uid (codes "grid_recovery_time") x w.db)

  write_delay-written :
      (inv_uid : Str) (addr_offset : ℕ) (regs : List ℕ) (w : World d)
      → (write_delay fl d inv_uid addr_offset regs w).0 ≡ none
      → let seconds = u32_of (get_or regs 0 0) (get_or regs 1 0) in
        (addr_offset ≡ 7)
        × (length regs ≡ 2)
        × (10 ≤ seconds)
        × (seconds ≤ 610)
        × ((i c : Str)
            → param_of (write_delay fl d inv_uid addr_offset regs w).1.db i c ≡ (
                if str_eq inv_uid i && str_eq (codes "grid_recovery_time") c
                then some (of_ℤ (pos seconds))
                else param_of w.db i c))
  unfolding write_delay
  write_delay-written inv_uid addr_offset regs w h =
      let x = of_ℤ (pos (u32_of (get_or regs 0 0) (get_or regs 1 0))) in
      (
        ground (arith, h),
        ground (arith, h),
        ground (arith, h),
        ground (arith, h),
        λ i c. ground (
          arith,
          h,
          set_protection_param-written inv_uid (codes "grid_recovery_time") i c x w.db,
        ),
      )

  -- A write to Model 703 that is refused, by a check or by the database, changes nothing.
  pub enter_service_apply-refused :
      (snap : Snapshot F) (uid addr_offset : ℕ) (regs : List ℕ) (w : World d)
      → (enter_service_apply fl d snap uid addr_offset regs w).0 ≢ none
      → (enter_service_apply fl d snap uid addr_offset regs w).1 ≡ w
  unfolding enter_service_apply
  enter_service_apply-refused snap uid addr_offset regs w h =
      elim (Option-cases (inverter_of_unit snap uid)) [
        | inl e ↦ ground (arith, e)
        | inr (inv, e) ↦ ground (arith, e, h, write_delay-refused inv.uid addr_offset regs w)
      ]

  -- A write to Model 703 that succeeds was addressed to an inverter's own unit, covers exactly the two
  -- registers of ESDlyTms, and gives a delay of 10 to 610 seconds, which then is the one value of the
  -- database's parameters that differs.
  pub enter_service_apply-written :
      (snap : Snapshot F) (uid addr_offset : ℕ) (regs : List ℕ) (w : World d)
      → (enter_service_apply fl d snap uid addr_offset regs w).0 ≡ none
      → let seconds = u32_of (get_or regs 0 0) (get_or regs 1 0) in
        (inv : Inverter F) × (inverter_of_unit snap uid ≡ some inv)
        × (addr_offset ≡ 7)
        × (length regs ≡ 2)
        × (10 ≤ seconds)
        × (seconds ≤ 610)
        × ((i c : Str)
            → param_of (enter_service_apply fl d snap uid addr_offset regs w).1.db i c ≡ (
                if str_eq inv.uid i && str_eq (codes "grid_recovery_time") c
                then some (of_ℤ (pos seconds))
                else param_of w.db i c))
  unfolding enter_service_apply
  enter_service_apply-written snap uid addr_offset regs w h =
      elim (Option-cases (inverter_of_unit snap uid)) [
        | inl e ↦ absurd (ground (arith, e, h))
        | inr (inv, e) ↦
            let big : leb uid 1 ≡ false = ground (arith, h) in
            let here : enter_service_apply fl d snap uid addr_offset regs w
                ≡ write_delay fl d inv.uid addr_offset regs w =
              ground (arith, e, big) in
            let out =
              write_delay-written inv.uid addr_offset regs w (ap (λ r. r.0) (sym here) ∙ h) in
            rw here (inv, e, out.0, out.1, out.2, out.3, out.4)
      ]
