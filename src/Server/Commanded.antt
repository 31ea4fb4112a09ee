-- ===== src/Server/Commanded.antt =====
-- The two halves of the way from a written WMaxLimPct to a read of it: a write of the register to
-- the unit of an inverter, internal/server/server.go and internal/server/controls_writer.go; and a read of
-- it after a refresh, internal/source/snapshot_builder.go and internal/sunspec/controls.go.
pub mod RoundTrip
use mathlib.Core.Path.{subst}
use apsystems_sunspec.Base.{
  ℕ, zero, suc, ◌+◌, ◌-◌, ◌*◌, ◌≤◌, ◌<◌, ◌≡◌, refl, sym, ap, ◌∙◌, true, Option, some, none, List,
  [], ◌∷◌, Str, length, All, get_elem?, arith, elem, Bool, str_eq, str_eq_refl,
}
use apsystems_sunspec.Base.Int.{ℤ, pos}
use apsystems_sunspec.Floats.{Floats}
use apsystems_sunspec.Config.{Net, allows_write}
use apsystems_sunspec.Source.Builder.{Builder, build}
use apsystems_sunspec.Source.Builder.Joined.{IsJoined, IsAnswered, last_of, or_else, build-IsJoined}
use apsystems_sunspec.Source.Database.{Database, DatabaseLaws}
use apsystems_sunspec.Source.Inverter.{Inverter, NameplateTable, nameplate_w, panel_count}
use apsystems_sunspec.Source.Joins.{Answers}
use apsystems_sunspec.Source.Params.{Parsers}
use apsystems_sunspec.Source.Snapshot.{Snapshot}
use apsystems_sunspec.Source.Writer.{Error}
use apsystems_sunspec.Sunspec.Controls.{emit_controls, per_inverter_controls_state}
use apsystems_sunspec.Sunspec.Options.{Options}
use apsystems_sunspec.Sunspec.PerInverter.{encode_per_inverter}
use apsystems_sunspec.Sunspec.PerInverter.Registers.{at-controls, encode_per_inverter-base}
use apsystems_sunspec.Server.ControlsWriter.{target_uids, cap_watts, controls_apply}
use apsystems_sunspec.Server.ControlsWriter.Limits.{
  watts_of, cap_watts-watts_of, commanded, limited, controls_apply-limits,
}
use apsystems_sunspec.Server.ControlsWriter.ReadBack.{share, per_inverter_controls_state-cap_watts}
use apsystems_sunspec.Server.Handler.{
  Request, Response, registers, written, answer, Banks, Server, handle_read, handle_write, bank_for,
}
use apsystems_sunspec.Server.Handler.OneRegister.{read_unit, handle_read-one}
use apsystems_sunspec.Server.Handler.Routing.{
  HasRefreshed, routed, controls_address, handle_write-routed,
}
use apsystems_sunspec.Server.Process.{ServerConfig, Sources, provided, refresh_once}
use apsystems_sunspec.Server.Refresh.{Published, build_banks, refresh, tracked}
use apsystems_sunspec.Server.Refresh.Units.{inverter_at, unit_bank, bank_for-build_banks}
use apsystems_sunspec.Server.Tracker.{WriteTracker, protection_at, prune_settled, reconcile}
use apsystems_sunspec.Server.World.{World, inverter_of_unit, write_touches, read_field}

-- A write of WMaxLimPct alone, at its address in the bank of an inverter.
abbrev pub write_pct : Str → ℕ → ℕ → Request
write_pct client unit pct = record {
  client_addr = client;
  unit_id = unit;
  addr = 40267;
  quantity = 1;
  args = pct ∷ [];
}

answer-written :
    {S : Type 0} (r : Option Error × S) (s : S) → answer r ≡ (written, s) → r ≡ (none, s)
answer-written (none, t) s h = cc
answer-written (some e, t) s h = cc

All-get_elem? :
    {A : Type 0} (P : A → Type 0) (xs : List A) (i : ℕ) (x : A)
    → All P xs
    → get_elem? xs i ≡ some x
    → P x
All-get_elem? P [] i x h e = cc (e)
All-get_elem? P (y ∷ ys) zero x h e = subst P (cc) h.0
All-get_elem? P (y ∷ ys) (suc i) x h e = All-get_elem? P ys i x h.1 e

module _ {F : Type 0} (d : Database F) (laws : DatabaseLaws d) where
  open laws use {limit_of}

  commanded-pct : (pct : ℕ) → commanded d laws 3 (pct ∷ []) ≡ some (pos (watts_of pct))
  unfolding write_touches read_field
  commanded-pct pct = refl

  target_uids-unit :
      (snap : Snapshot F) (unit : ℕ) (inv : Inverter F)
      → inverter_at snap unit ≡ some inv
      → target_uids snap unit ≡ inv.uid ∷ []
  unfolding target_uids inverter_of_unit
  target_uids-unit snap unit inv here = ground (arith, here)

  -- The command's watts in the row of the one inverter that the unit stands for.
  pub limit_of-commanded :
      (snap : Snapshot F) (unit pct : ℕ) (w w' : World d) (inv : Inverter F) (old : ℤ)
      → inverter_at snap unit ≡ some inv
      → limit_of w.db inv.uid ≡ some old
      → controls_apply d snap unit 3 (pct ∷ []) w ≡ (none, w')
      → limit_of w'.db inv.uid ≡ some (cap_watts pct)
  limit_of-commanded snap unit pct w w' inv old here row ok =
      let after =
        controls_apply-limits d laws snap unit 3 (pct ∷ []) w inv.uid (ap (λ r. r.0) ok) in
      ap (λ r. limit_of r.1.db inv.uid) (sym ok)
      ∙ after
      ∙ rw
          (
            commanded-pct pct,
            target_uids-unit snap unit inv here,
            row,
            str_eq_refl inv.uid,
            cap_watts-watts_of pct,
          )
          refl

module _ (fl : Floats) (d : Database fl.F) (n : Net) where
  -- Such a write reaches the writer of Model 123.
  pub handle_write-pct :
      (tbl : NameplateTable) (s : Server fl d n) (snap : Snapshot fl.F) (opt : Options)
      (wt : WriteTracker fl.F) (client : Str) (unit pct : ℕ) (w w' : World d) (inv : Inverter fl.F)
      → HasRefreshed fl d n tbl s snap opt wt
      → length snap.inverters ≤ 254
      → allows_write n s.writes client ≡ true
      → s.has_writer ≡ true
      → inverter_at snap unit ≡ some inv
      → handle_write fl d n s (write_pct client unit pct) w ≡ (written, w')
      → controls_apply d snap unit 3 (pct ∷ []) w ≡ (none, w')
  handle_write-pct tbl s snap opt wt client unit pct w w' inv fresh few allowed able here ok =
      let req = write_pct client unit pct in
      let goes =
        handle_write-routed fl d n tbl s snap opt wt req w fresh few allowed able (omega arith) in
      answer-written _ w'
        (ap (λ o. routed fl d n snap (controls_address fl d n o) req w) (sym here) ∙ sym goes ∙ ok)

module _ (fl : Floats) (tbl : NameplateTable) (p : Parsers fl) (b : Builder) where
  open fl use {F}

  -- The snapshot that Build returns.
  abbrev pub built : Sources F → Snapshot F
  built src = (build fl p src.read src.open_file src.answers b).0

  abbrev pub IsBuilt : Sources F → Type 0
  IsBuilt src = (build fl p src.read src.open_file src.answers b).1 ≡ true

  refresh_once-banks :
      (cfg : ServerConfig) (src : Sources F) (s : Published fl tbl)
      → IsBuilt src
      → (wt : WriteTracker F) × ((refresh_once fl tbl p b cfg src s).banks
          ≡ some (build_banks fl tbl (built src) cfg.encoder wt))
  unfolding refresh_once provided refresh
  refresh_once-banks cfg src s ok = (
    prune_settled src.later cfg.refresh_interval (reconcile fl (built src) src.now s.tracker),
    rw (refresh_once, provided, ok) refl,
  )

  -- What Model 123 of an inverter's unit shows is read at 40267.
  pub handle_read-pct :
      (cfg : ServerConfig) (src : Sources F) (s : Published fl tbl) (client : Str) (unit : ℕ)
      (inv : Inverter F)
      → IsBuilt src
      → length (built src).inverters ≤ 254
      → inverter_at (built src) unit ≡ some inv
      → handle_read (refresh_once fl tbl p b cfg src s).banks (read_unit client unit 40267)
        ≡ registers ((per_inverter_controls_state tbl inv).pct ∷ [])
  unfolding emit_controls
  handle_read-pct cfg src s client unit inv ok few here =
      let (wt, served) = refresh_once-banks cfg src s ok in
      let opt = tracked fl tbl cfg.encoder wt in
      let prot = protection_at fl (built src) inv.uid in
      let bank = encode_per_inverter fl tbl inv unit opt prot in
      let (room, there) = at-controls fl tbl inv unit opt prot 5 (omega arith) in
      let at_bank : bank_for (refresh_once fl tbl p b cfg src s).banks unit ≡ some bank =
        ap (λ m. bank_for m unit) served
        ∙ bank_for-build_banks fl tbl (built src) cfg.encoder wt unit few
        ∙ ap (λ o. some (unit_bank fl tbl (built src) cfg.encoder wt unit o)) here in
      handle_read-one bank client unit 267 _ (encode_per_inverter-base fl tbl inv unit opt prot)
        (omega arith) room at_bank
      ∙ ap (λ r. registers (r ∷ [])) there

  -- An inverter of the snapshot has the limit of its last row.
  pub limited_power-last_of :
      (src : Sources F) (a : Answers F) (signals limits : List (Str × ℤ))
      (events : List (Str × Str)) (unit : ℕ) (inv : Inverter F) (watts : ℤ)
      → src.answers ≡ some a
      → IsAnswered fl p signals limits events a
      → IsBuilt src
      → inverter_at (built src) unit ≡ some inv
      → last_of inv.uid limits ≡ some watts
      → inv.limited_power_w ≡ watts
  unfolding IsJoined
  limited_power-last_of src a signals limits events unit inv watts asked answers ok here row =
      let joined : IsBuilt src → All (IsJoined fl p signals limits events) (built src).inverters =
        subst
          (λ o.
            (build fl p src.read src.open_file o b).1 ≡ true
            → All (IsJoined fl p signals limits events)
                (build fl p src.read src.open_file o b).0.inverters)
          (sym asked)
          (build-IsJoined fl p src.read src.open_file b signals limits events a answers) in
      let own =
        All-get_elem? _ (built src).inverters (unit - 2) inv (joined ok) (ground (arith, here)) in
      own.1 ∙ ap (or_else (pos 0)) row
