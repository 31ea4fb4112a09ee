-- ===== src/Server/Process.antt =====
-- New, Start and refreshLoop of internal/server/server.go, over the Builder of internal/source as the
-- provider. The listener, the ticker and the end of the context are left out: `ticks` are the rounds
-- that the loop has made, none unless the interval is positive (Server.Lifecycle.loop_panics).
pub mod Served
use apsystems_sunspec.Base.{
  ℕ, zero, suc, ◌≡◌, refl, ap, ◌∙◌, ◌*◌, ◌==◌, Bool, Option, some, none, List, [], ◌∷◌, Str, codes,
  is_empty, if◌then◌else◌, ◌⊎◌, Bool-cases, Option-cases, inl, inr,
}
use apsystems_sunspec.Base.Int.{ℤ, pos, negsuc}
use apsystems_sunspec.Floats.{Floats}
use apsystems_sunspec.Config.{WritesConfig}
use apsystems_sunspec.Source.Builder.{Builder, ReadFile, build}
use apsystems_sunspec.Source.Joins.{Answers}
use apsystems_sunspec.Source.Builder.Fleet.{IsFleetView, build-IsFleetView}
use apsystems_sunspec.Source.Inverter.{NameplateTable}
use apsystems_sunspec.Source.Params.{Parsers}
use apsystems_sunspec.Source.Snapshot.{Snapshot}
use apsystems_sunspec.Sunspec.Options.{Options}
use apsystems_sunspec.Server.Tracker.{WriteTracker}
use apsystems_sunspec.Server.Refresh.{Published, build_banks, refresh}

-- Config, with durations in nanoseconds; `writer` tells a Writer from nil.
pub record ServerConfig : Type 0 where
  pub url : Str
  pub refresh_interval : ℤ
  pub timeout : ℤ
  pub max_clients : ℕ
  pub encoder : Options
  pub writes : WritesConfig
  pub writer : Bool

abbrev pub second : ℕ
second = 1000000000

-- A Duration, or `d` where it is 0.
unfoldable pub or_default : ℕ → ℤ → ℤ
or_default d (pos zero) = pos d
or_default d (pos (suc n)) = pos (suc n)
or_default d (negsuc n) = negsuc n

-- The configuration that New keeps.
unfoldable pub with_defaults : ServerConfig → ServerConfig
with_defaults cfg = record cfg {
  url = if is_empty cfg.url then codes "tcp://0.0.0.0:1502" else cfg.url;
  refresh_interval = or_default (5 * second) cfg.refresh_interval;
  timeout = or_default (300 * second) cfg.timeout;
  max_clients = if cfg.max_clients == 0 then 32 else cfg.max_clients;
}

-- What one refresh reads: the files, the database's answers, and the clock, which is read twice.
pub record Sources (F : Type 0) : Type 0 where
  pub read : ReadFile
  pub open_file : Str → Option (Bool × Str)
  pub answers : Option (Answers F)
  pub now : ℕ
  pub later : ℕ

module _ (fl : Floats) (tbl : NameplateTable) (p : Parsers fl) (b : Builder) where
  open fl use {F}

  -- `snap, err := s.provider.Build(ctx)`, none for an error.
  unfoldable pub provided : Sources F → Option (Snapshot F)
  provided src =
      let r = build fl p src.read src.open_file src.answers b in if r.1 then some r.0 else none

  abbrev pub initial : Published fl tbl
  initial = record { tracker = []; banks = none; snap = none }

  unfoldable pub refresh_once : ServerConfig → Sources F → Published fl tbl → Published fl tbl
  refresh_once cfg src s =
      refresh fl tbl (provided src) cfg.encoder cfg.refresh_interval src.now src.later s

  -- refreshLoop
  unfoldable pub refresh_loop :
      ServerConfig → List (Sources F) → Published fl tbl → Published fl tbl
  refresh_loop cfg [] s = s
  refresh_loop cfg (tick ∷ ticks) s = refresh_loop cfg ticks (refresh_once cfg tick s)

  -- Start of a server that New has made.
  unfoldable pub run : ServerConfig → Sources F → List (Sources F) → Published fl tbl
  run cfg first ticks =
      let kept = with_defaults cfg in refresh_loop kept ticks (refresh_once kept first initial)

  -- Banks and snapshot are published together, and the snapshot agrees with its inverters.
  pub IsPublished : Options → Published fl tbl → Type 0
  IsPublished opt s =
      (s.banks ≡ none) × (s.snap ≡ none)
      ⊎ ((snap : Snapshot F) × (wt : WriteTracker F) × (s.snap ≡ some snap)
          × (s.banks ≡ some (build_banks fl tbl snap opt wt))
          × IsFleetView snap)

  refresh_once-IsPublished :
      (cfg : ServerConfig) (src : Sources F) (s : Published fl tbl)
      → IsPublished cfg.encoder s
      → IsPublished cfg.encoder (refresh_once cfg src s)
  unfolding IsPublished refresh_once provided refresh
  refresh_once-IsPublished cfg src s h =
      elim (Bool-cases (build fl p src.read src.open_file src.answers b).1) [
        | inl ok ↦
            rw (refresh_once, provided, ok)
              (inr
                (_, _, refl, refl, build-IsFleetView fl p src.read src.open_file src.answers b ok))
        | inr bad ↦ rw (refresh_once, provided, bad) h
      ]

  refresh_loop-IsPublished :
      (cfg : ServerConfig) (ticks : List (Sources F)) (s : Published fl tbl)
      → IsPublished cfg.encoder s
      → IsPublished cfg.encoder (refresh_loop cfg ticks s)
  unfolding refresh_loop
  refresh_loop-IsPublished cfg [] s h = h
  refresh_loop-IsPublished cfg (tick ∷ ticks) s h =
      refresh_loop-IsPublished cfg ticks (refresh_once cfg tick s)
        (refresh_once-IsPublished cfg tick s h)

  abbrev pub newest : Option (Snapshot F) → Option (Snapshot F) → Option (Snapshot F)
  newest o none = o
  newest o (some snap) = some snap

  -- The snapshot of the last round whose Build succeeds, or else `o`.
  abbrev pub last_provided : Option (Snapshot F) → List (Sources F) → Option (Snapshot F)
  last_provided o [] = o
  last_provided o (tick ∷ ticks) = last_provided (newest o (provided tick)) ticks

  refresh_once-snap :
      (cfg : ServerConfig) (src : Sources F) (s : Published fl tbl)
      → (refresh_once cfg src s).snap ≡ (newest s.snap (provided src))
  unfolding refresh_once refresh
  refresh_once-snap cfg src s = elim (Option-cases (provided src)) [
    | inl e ↦ rw (refresh_once, e) refl
    | inr (snap, e) ↦ rw (refresh_once, e) refl
  ]

  refresh_loop-snap :
      (cfg : ServerConfig) (ticks : List (Sources F)) (s : Published fl tbl)
      → (refresh_loop cfg ticks s).snap ≡ last_provided s.snap ticks
  unfolding refresh_loop
  refresh_loop-snap cfg [] s = refl
  refresh_loop-snap cfg (tick ∷ ticks) s =
      refresh_loop-snap cfg ticks (refresh_once cfg tick s)
      ∙ ap (λ o. last_provided o ticks) (refresh_once-snap cfg tick s)

  -- After the first refresh and any number of rounds of the loop, some of which may fail, a server
  -- publishes the snapshot of the last round that succeeded, with banks built of that snapshot; and
  -- neither banks nor a snapshot as long as none has. The snapshot agrees with its inverters.
  pub run-IsPublished :
      (cfg : ServerConfig) (first : Sources F) (ticks : List (Sources F))
      → ((run cfg first ticks).snap ≡ last_provided none (first ∷ ticks))
        × IsPublished cfg.encoder (run cfg first ticks)
  unfolding run with_defaults IsPublished refresh_loop
  run-IsPublished cfg first ticks =
      let kept = with_defaults cfg in
      (
        refresh_loop-snap kept (first ∷ ticks) initial,
        refresh_loop-IsPublished kept (first ∷ ticks) initial (inl (refl, refl)),
      )
