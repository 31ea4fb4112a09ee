-- ===== src/Cmd/Wiring.antt =====
-- The server that cmd/ecu-sunspec/main.go starts, as internal/server/server.go answers its writes.
use mathlib.Core.Path.{subst}
use apsystems_sunspec.Base.{
  Str, ◌≡◌, refl, false, not, ◌&&◌, ◌⊎◌, inl, inr, ◌↔◌, arith, Sum-cases, Option-cases, if_holds,
}
use apsystems_sunspec.Floats.{Floats}
use apsystems_sunspec.Config.{Net, WritesConfig, is_enabled, allows_write}
use apsystems_sunspec.Config.Load.{load}
use apsystems_sunspec.Source.Database.{Database}
use apsystems_sunspec.Source.Reader.{open_sqlite}
use apsystems_sunspec.Server.Handler.{Server, Request, refused, illegal_function, handle_write}
use apsystems_sunspec.Server.Handler.Routing.{handle_write-refuses}
use apsystems_sunspec.Server.World.{World}
use apsystems_sunspec.Cmd.{Environment, Flags, Fatal, Wired, parse_phase, wire, start_up}

-- A start-up that succeeds.
abbrev IsPaired : Fatal ⊎ Wired → Type 0
IsPaired (inl e) = Unit
IsPaired (inr w) = w.config.writer ≡ is_enabled w.config.writes

wire-IsPaired : (env : Environment) (fs : Flags) (cfg : WritesConfig) → IsPaired (wire env fs cfg)
unfolding wire
wire-IsPaired env fs cfg = elim (Option-cases (open_sqlite (env.opens fs.db_dir))) [
  | inl e ↦ rw (wire, e) tt
  | inr (names, e) ↦
      rw (wire, e)
        (if_holds IsPaired (is_enabled cfg && not (env.opens_writer fs.db_dir)) _ _ tt
          (elim (Option-cases (parse_phase fs.phase)) [
            | inl k ↦ rw k tt
            | inr (mode, k) ↦ rw k refl
          ]))
]

start_up-IsPaired : (n : Net) (env : Environment) (fs : Flags) → IsPaired (start_up n env fs)
unfolding start_up
start_up-IsPaired n env fs = elim (Sum-cases (load n env.stored env.unmarshal fs.config_path)) [
  | inl (x, e) ↦ rw (start_up, e) tt
  | inr (cfg, e) ↦ rw (start_up, e) (wire-IsPaired env fs cfg)
]

allows_write-enabled :
    (n : Net) (c : WritesConfig) (remote : Str)
    → is_enabled c ≡ false
    → allows_write n c remote ≡ false
unfolding allows_write
allows_write-enabled n c remote h = ground (arith, h)

module _ (fl : Floats) (d : Database fl.F) (n : Net) where
  -- The server with the writer and the configuration that main hands over.
  abbrev pub IsWired : Wired → Server fl d n → Type 0
  IsWired w s = (s.writes ≡ w.config.writes) × (s.has_writer ≡ w.config.writer)

  -- A server with the configuration and the writer of a start-up that succeeds refuses a write as an
  -- illegal function exactly when that configuration does not allow its client: it never lacks a
  -- writer for a write that is allowed.
  pub handle_write-start_up :
      (env : Environment) (fs : Flags) (wired : Wired) (s : Server fl d n) (req : Request)
      (w : World d)
      → start_up n env fs ≡ inr wired
      → IsWired wired s
      → ((handle_write fl d n s req w).0 ≡ refused illegal_function)
        ↔ (allows_write n wired.config.writes req.client_addr ≡ false)
  handle_write-start_up env fs wired s req w started same =
      let paired = subst IsPaired started (start_up-IsPaired n env fs) in
      ground (
        arith,
        paired,
        same,
        handle_write-refuses fl d n s req w,
        allows_write-enabled n wired.config.writes req.client_addr,
      )
