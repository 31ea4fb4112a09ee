-- ===== src/Cmd/Exits.antt =====
-- When the process of cmd/ecu-sunspec/main.go comes to serve, and what it then publishes.
use apsystems_sunspec.Base.{
  zero, suc, ◌*◌, ◌≡◌, ◌≢◌, ◌↔◌, refl, sym, ap, ◌∙◌, Bool, true, none, List, [], Str, codes,
  is_empty, if◌then◌else◌, ◌⊎◌, inl, inr, arith, Sum-cases, Option-cases, Bool-cases,
}
use apsystems_sunspec.Base.Int.{ℤ, pos, negsuc, ltb_ℤ, ◌≤ℤ◌}
use apsystems_sunspec.Floats.{Floats}
use apsystems_sunspec.Config.{Net, WritesConfig, is_enabled}
use apsystems_sunspec.Config.Load.{load}
use apsystems_sunspec.Source.Inverter.{NameplateTable}
use apsystems_sunspec.Source.Nameplates.{load_nameplate_table, table_of}
use apsystems_sunspec.Source.Params.{Parsers}
use apsystems_sunspec.Source.Reader.{open_sqlite}
use apsystems_sunspec.Server.Process.{Sources, second, run, with_defaults, or_default}
use apsystems_sunspec.Server.Lifecycle.{
  Library, new_server, loop_panics, start_server, stop_server, published-start,
}
use apsystems_sunspec.Cmd.{
  Environment, Flags, Fatal, Wired, parse_phase, wired_with, wire, start_up,
}
use apsystems_sunspec.Cmd.Main.{NameplateFile, after_start_up, serve, main}

-- The two databases, where the historical one goes by either name.
abbrev pub DatabasesOpen : (Str → Bool) → Type 0
DatabasesOpen opens =
    (opens (codes "database.db") ≡ true)
    × ((opens (codes "historical_data.db") ≡ true) ⊎ (opens (codes "historical.db") ≡ true))

open_sqlite_iff : (opens : Str → Bool) → (open_sqlite opens ≢ none) ↔ DatabasesOpen opens
unfolding open_sqlite
open_sqlite_iff opens = ground arith

-- The URL that New keeps.
abbrev pub url_of : Flags → Str
url_of fs = if is_empty fs.bind then codes "tcp://0.0.0.0:1502" else fs.bind

-- Everything that has to open does, under the configuration `cfg`.
abbrev pub IsOpen : Environment → Flags → WritesConfig → Type 0
IsOpen env fs cfg =
    DatabasesOpen (env.opens fs.db_dir)
    × (is_enabled cfg ≡ true → env.opens_writer fs.db_dir ≡ true)
    × (parse_phase fs.phase ≢ none)

-- What New's defaults are applied to.
abbrev IsBare : Flags → Wired → Type 0
IsBare fs w =
    (w.config.url ≡ fs.bind)
    × (w.config.timeout ≡ pos 0)
    × (w.config.max_clients ≡ 0)
    × (w.config.refresh_interval ≡ fs.refresh_interval)

wire-IsOpen :
    (env : Environment) (fs : Flags) (cfg : WritesConfig)
    → IsOpen env fs cfg
    → (w : Wired) × (wire env fs cfg ≡ inr w) × IsBare fs w
unfolding wire
wire-IsOpen env fs cfg (bases, writer, phase) =
    elim (Option-cases (open_sqlite (env.opens fs.db_dir))) [
      | inl e ↦ absurd ((open_sqlite_iff (env.opens fs.db_dir)).1 bases e)
      | inr (names, e) ↦ elim (Option-cases (parse_phase fs.phase)) [
        | inl k ↦ absurd (phase k)
        | inr (mode, k) ↦
            (wired_with env fs cfg mode, ground (arith, e, k, writer), (refl, refl, refl, refl))
      ]
    ]

IsOpen-wire :
    (env : Environment) (fs : Flags) (cfg : WritesConfig) (w : Wired)
    → wire env fs cfg ≡ inr w
    → IsOpen env fs cfg × IsBare fs w
unfolding wire
IsOpen-wire env fs cfg w e = ground (arith, open_sqlite_iff (env.opens fs.db_dir), e)

module _ (fl : Floats) (p : Parsers fl) where
  open fl use {F}

  serve-status :
      (tbl : NameplateTable) (lib : Library) (first : Sources F) (ticks : List (Sources F))
      (w : Wired)
      → ((serve fl p tbl lib first ticks w).status ≡ 0) ↔ (
          (lib.accepts
              (with_defaults w.config).url
              (with_defaults w.config).timeout
              (with_defaults w.config).max_clients
            ≡ true)
          × (lib.starts ≡ true)
          × (ltb_ℤ (pos 0) (with_defaults w.config).refresh_interval ≡ true))
  unfolding serve start_server new_server loop_panics
  serve-status tbl lib first ticks w = ground arith

  -- All that has to succeed before the listener serves, with New's defaults for what main leaves out.
  abbrev pub CanServe : Net → Environment → Flags → Library → Type 0
  CanServe n env fs lib =
      (cfg : WritesConfig) × (load n env.stored env.unmarshal fs.config_path ≡ inr cfg)
      × IsOpen env fs cfg
      × (lib.accepts (url_of fs) (pos (300 * second)) 32 ≡ true)
      × (lib.starts ≡ true)
      × (pos 0 ≤ℤ fs.refresh_interval)

  bare-accepts :
      (lib : Library) (fs : Flags) (w : Wired)
      → IsBare fs w
      → (let kept = with_defaults w.config in lib.accepts kept.url kept.timeout kept.max_clients)
        ≡ lib.accepts (url_of fs) (pos (300 * second)) 32
  unfolding with_defaults or_default
  bare-accepts lib fs w (url, timeout, clients, interval) = rw (url, timeout, clients) refl

  or_default_iff : (z : ℤ) → (ltb_ℤ (pos 0) (or_default (5 * second) z) ≡ true) ↔ (pos 0 ≤ℤ z)
  unfolding or_default
  or_default_iff (pos zero) = ground arith
  or_default_iff (pos (suc n)) = ground arith
  or_default_iff (negsuc n) = ground arith

  bare-ticks :
      (fs : Flags) (w : Wired)
      → IsBare fs w
      → (ltb_ℤ (pos 0) (with_defaults w.config).refresh_interval ≡ true)
        ↔ (pos 0 ≤ℤ fs.refresh_interval)
  unfolding with_defaults
  bare-ticks fs w (url, timeout, clients, interval) =
      rw interval (or_default_iff fs.refresh_interval)

  start_up-inr :
      (n : Net) (env : Environment) (fs : Flags) (w : Wired)
      → start_up n env fs ≡ inr w
      → (cfg : WritesConfig) × (load n env.stored env.unmarshal fs.config_path ≡ inr cfg)
        × (wire env fs cfg ≡ inr w)
  unfolding start_up
  start_up-inr n env fs w e = elim (Sum-cases (load n env.stored env.unmarshal fs.config_path)) [
    | inl (x, k) ↦ cc (e, k)
    | inr (cfg, k) ↦ (cfg, k, ground (arith, e, k))
  ]

  after_start_up-CanServe :
      (n : Net) (env : Environment) (lib : Library) (fs : Flags) (tbl : NameplateTable)
      (first : Sources F) (ticks : List (Sources F)) (r : Fatal ⊎ Wired)
      → start_up n env fs ≡ r
      → (after_start_up fl p tbl lib first ticks r).status ≡ 0
      → CanServe n env fs lib
  after_start_up-CanServe n env lib fs tbl first ticks (inl x) e zero_status = absurd (omega arith)
  after_start_up-CanServe n env lib fs tbl first ticks (inr w) e zero_status =
      let (cfg, loads, wired) = start_up-inr n env fs w e in
      let (opens, bare) = IsOpen-wire env fs cfg w wired in
      let (accepts, starts, ticking) = (serve-status tbl lib first ticks w).0 zero_status in
      (
        cfg,
        loads,
        opens,
        (sym (bare-accepts lib fs w bare) ∙ accepts),
        starts,
        (bare-ticks fs w bare).0 ticking,
      )

  CanServe-status :
      (n : Net) (env : Environment) (lib : Library) (fs : Flags) (tbl : NameplateTable)
      (first : Sources F) (ticks : List (Sources F))
      → CanServe n env fs lib
      → (after_start_up fl p tbl lib first ticks (start_up n env fs)).status ≡ 0
  unfolding start_up
  CanServe-status n env lib fs tbl first ticks (cfg, loads, opens, accepts, starts, ticking) =
      let (w, wired, bare) = wire-IsOpen env fs cfg opens in
      rw (start_up, loads, wired)
        ((serve-status tbl lib first ticks w).1
          (bare-accepts lib fs w bare ∙ accepts, starts, (bare-ticks fs w bare).1 ticking))

  pub main-status :
      (n : Net) (env : Environment) (file : NameplateFile) (lib : Library) (fs : Flags)
      (first : Sources F) (ticks : List (Sources F))
      → ((main fl p n env file lib fs first ticks).status ≡ 0) ↔ CanServe n env fs lib
  unfolding main
  main-status n env file lib fs first ticks = (
    after_start_up-CanServe n env lib fs _ first ticks (start_up n env fs) refl,
    CanServe-status n env lib fs _ first ticks,
  )

  -- What `serve` does, by whether Start gives an error.
  serve-banks :
      (tbl : NameplateTable) (lib : Library) (first : Sources F) (ticks : List (Sources F))
      (w : Wired)
      → (serve fl p tbl lib first ticks w).status ≡ 0
      → (serve fl p tbl lib first ticks w).banks
        ≡ (run fl tbl p w.builder w.config first ticks).banks
  unfolding serve stop_server
  serve-banks tbl lib first ticks w ok =
      let made = new_server fl tbl p w.builder w.config in
      elim (Option-cases (start_server fl tbl p w.builder lib first made).0) [
        | inl e ↦
            elim (Bool-cases
              (loop_panics fl tbl p w.builder (start_server fl tbl p w.builder lib first made).1)) [
                | inl k ↦ absurd (ground (arith, ok, e, k))
                | inr k ↦
                    rw (serve, e, k)
                      (ap (λ s. s.banks)
                        (published-start fl tbl p w.builder lib w.config first ticks))
              ]
        | inr (x, e) ↦ absurd (ground (arith, ok, e))
      ]

  -- A process that starts and ends with the status 0 has at the end published the banks of `run`: for
  -- the first refresh and the rounds of the loop, with the builder and the configuration of the
  -- start-up, and with the nameplates of the file, or none where it is missing or cannot be loaded.
  pub main-banks :
      (n : Net) (env : Environment) (file : NameplateFile) (lib : Library) (fs : Flags)
      (first : Sources F) (ticks : List (Sources F)) (w : Wired)
      → start_up n env fs ≡ inr w
      → (main fl p n env file lib fs first ticks).status ≡ 0
      → let plates =
          load_nameplate_table p.int_size file.unmarshal file.stored fs.nameplate_path [] in
        (main fl p n env file lib fs first ticks).banks
        ≡ (run fl (table_of plates.1) p w.builder w.config first ticks).banks
  unfolding main
  main-banks n env file lib fs first ticks w started ok =
      let plates =
        load_nameplate_table p.int_size file.unmarshal file.stored fs.nameplate_path [] in
      let tbl = table_of plates.1 in
      let status : (serve fl p tbl lib first ticks w).status ≡ 0 =
        ap (λ r. (after_start_up fl p tbl lib first ticks r).status) (sym started) ∙ ok in
      ap (λ r. (after_start_up fl p tbl lib first ticks r).banks) started
      ∙ serve-banks tbl lib first ticks w status
