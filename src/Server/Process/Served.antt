-- ===== src/Server/Process/Served.antt =====
-- From the ECU's files to a client of unit 1: internal/source/snapshot_builder.go, the refreshes of
-- internal/server/server.go, the aggregate bank of internal/sunspec/encoder.go, and a read.
use mathlib.Core.Path.{subst}
use apsystems_sunspec.Base.{
  ℕ, suc, ◌+◌, ◌≤◌, ◌<◌, ◌≡◌, sym, ap, ◌∙◌, Option, some, none, List, [], ◌∷◌, Str, length, ◌==◌,
  if◌then◌else◌, arith, inl, inr,
}
use apsystems_sunspec.Base.Int.{pos, negsuc, ltb_ℤ}
use apsystems_sunspec.Base.Word.{i32_of_ℤ, u16_of_ℤ}
use apsystems_sunspec.Floats.{Floats}
use apsystems_sunspec.Source.Builder.{Builder}
use apsystems_sunspec.Source.Builder.Fleet.{
  IsFleetView, online_count, online_power, operating_state-IsFleetView,
}
use apsystems_sunspec.Source.Inverter.{NameplateTable}
use apsystems_sunspec.Source.Params.{Parsers}
use apsystems_sunspec.Source.Snapshot.{Snapshot}
use apsystems_sunspec.Sunspec.Bank.{at, clamp_i32}
use apsystems_sunspec.Sunspec.Encoder.{encode}
use apsystems_sunspec.Sunspec.Encoder.Registers.{
  encode-base, long_enough, at-operating_state, at-power,
}
use apsystems_sunspec.Sunspec.Events.{st_sleep, st_mppt, st_standby}
use apsystems_sunspec.Sunspec.Options.{Options}
use apsystems_sunspec.Server.Handler.{Request, Banks, registers, handle_read}
use apsystems_sunspec.Server.Handler.OneRegister.{read_unit, handle_read-one}
use apsystems_sunspec.Server.Process.{ServerConfig, Sources, IsPublished, run, run-IsPublished}
use apsystems_sunspec.Server.Refresh.{Published, build_banks, tracked}
use apsystems_sunspec.Server.Refresh.Units.{bank_for-build_banks}
use apsystems_sunspec.Server.Tracker.{WriteTracker}

-- A read of one register of unit 1.
abbrev pub read_one : Str → ℕ → Request
read_one client addr = read_unit client 1 addr

module _ (fl : Floats) (tbl : NameplateTable) (p : Parsers fl) (b : Builder) where
  open fl use {F}

  -- A read of the register `j` of the inverter model at unit 1 gives the aggregate bank's.
  IsServed : Options → Option Banks → Str → ℕ → Snapshot F → Type 0
  IsServed opt banks client j snap =
      (wt : WriteTracker F) × (handle_read banks (read_one client (40000 + suc (suc (68 + j))))
        ≡ registers
            (at (encode fl tbl snap (tracked fl tbl opt wt)) (40000 + suc (suc (68 + j))) ∷ []))
      × IsFleetView snap

  build_banks-IsServed :
      (opt : Options) (snap : Snapshot F) (wt : WriteTracker F) (client : Str) (j : ℕ)
      → length snap.inverters ≤ 254
      → j < 52
      → IsFleetView snap
      → IsServed opt (some (build_banks fl tbl snap opt wt)) client j snap
  unfolding IsServed
  build_banks-IsServed opt snap wt client j few h view =
      let opt' = tracked fl tbl opt wt in
      (
        wt,
        handle_read-one (encode fl tbl snap opt') client 1 (suc (suc (68 + j))) _
            (encode-base fl tbl snap opt') (omega (arith, h)) (long_enough fl tbl snap opt' j h)
            (bank_for-build_banks fl tbl snap opt wt 1 few),
        view,
      )

  abbrev snap_or : Snapshot F → Option (Snapshot F) → Snapshot F
  snap_or d none = d
  snap_or d (some snap) = snap

  IsPublished-IsServed :
      (opt : Options) (s : Published fl tbl) (snap : Snapshot F) (client : Str) (j : ℕ)
      → IsPublished fl tbl p b opt s
      → s.snap ≡ some snap
      → length snap.inverters ≤ 254
      → j < 52
      → IsServed opt s.banks client j snap
  unfolding IsPublished
  IsPublished-IsServed opt s snap client j (inl (no_banks, no_snap)) here few h =
      absurd (ground (arith, no_snap, here))
  IsPublished-IsServed opt s snap client j (inr (snap', wt, is_snap, banks, view)) here few h =
      subst (λ (x : Snapshot F). length x.inverters ≤ 254 → IsServed opt s.banks client j x)
        (ap (snap_or snap') (sym is_snap ∙ here))
        (λ few'.
          subst (λ m. IsServed opt m client j snap') (sym banks)
            (build_banks-IsServed opt snap' wt client j few' h view))
        few

  -- While a server publishes a snapshot of at most 254 inverters, whatever its refreshes have read and
  -- however many have failed, a client of unit 1 reads at 40108 that the plant sleeps exactly when
  -- no inverter is online, and else produces exactly when the powers of those online have a
  -- positive sum, as an int32; and at 40084 that sum, cut to what the register's type holds.
  pub handle_read-run :
      (cfg : ServerConfig) (first : Sources F) (ticks : List (Sources F)) (snap : Snapshot F)
      (client : Str)
      → (run fl tbl p b cfg first ticks).snap ≡ some snap
      → length snap.inverters ≤ 254
      → let served = (run fl tbl p b cfg first ticks).banks in
        let power = i32_of_ℤ (online_power snap.inverters) in
        (handle_read served (read_one client 40108)
          ≡ registers (
              (if online_count snap.inverters == 0
                then st_sleep
                else if ltb_ℤ (pos 0) power
                then st_mppt
                else st_standby)
              ∷ []))
        × (handle_read served (read_one client 40084)
            ≡ registers (u16_of_ℤ (clamp_i32 power (negsuc 32759) (pos 32760)) ∷ []))
  unfolding IsServed
  handle_read-run cfg first ticks snap client here few =
      let published = (run-IsPublished fl tbl p b cfg first ticks).1 in
      let (wt, state, view) =
        IsPublished-IsServed cfg.encoder _ snap client 38 published here few (omega arith) in
      let (wt', power, view') =
        IsPublished-IsServed cfg.encoder _ snap client 14 published here few (omega arith) in
      (
        state
            ∙ ap (λ r. registers (r ∷ []))
                (at-operating_state fl tbl snap (tracked fl tbl cfg.encoder wt)
                  ∙ operating_state-IsFleetView fl snap view),
        power
            ∙ ap (λ r. registers (r ∷ []))
                (at-power fl tbl snap (tracked fl tbl cfg.encoder wt')
                  ∙ ap (λ w. u16_of_ℤ (clamp_i32 w (negsuc 32759) (pos 32760))) view.powered),
      )
