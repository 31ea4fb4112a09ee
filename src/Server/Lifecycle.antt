-- ===== src/Server/Lifecycle.antt =====
-- Start and Stop of internal/server/server.go, and NewReverter's nil of internal/server/reverter.go.
-- The Modbus library's listener is the parameter `Library`. The refresh loop, a goroutine, is run by
-- `refreshes`, as many rounds as its ticker makes.

use apsystems_sunspec.Base.{
  ℕ, ◌≡◌, Bool, true, false, not, ◌&&◌, Option, some, none, List, [], Str, arith, if◌then◌else◌,
}
use apsystems_sunspec.Base.Int.{ℤ, pos, ltb_ℤ}
use apsystems_sunspec.Floats.{Floats}
use apsystems_sunspec.Source.Builder.{Builder}
use apsystems_sunspec.Source.Inverter.{NameplateTable}
use apsystems_sunspec.Source.Params.{Parsers}
use apsystems_sunspec.Server.Process.{
  ServerConfig, Sources, with_defaults, initial, refresh_once, refresh_loop, run,
}
use apsystems_sunspec.Server.Refresh.{Published}
use apsystems_sunspec.Server.Reverter.{Reverter, stop}

-- modbus.NewServer over the URL, the timeout and the number of clients, and what the server's Start
-- and Stop come to: whether each gives no error.
pub record Library : Type 0 where
  pub accepts : Str → ℤ → ℕ → Bool
  pub starts : Bool
  pub stops : Bool

pub data StartError : Type 0 where
  not_created not_started : StartError

abbrev pub no_timers : Reverter
no_timers = record { timers = []; running = []; firing = []; next_id = 0 }

-- NewReverter: nil without a writer.
unfoldable pub new_reverter : Bool → Option Reverter
new_reverter has_writer = if has_writer then some no_timers else none

-- Reverter.Stop, which does nothing on nil.
unfoldable pub stop_reverter : Option Reverter → Option Reverter
stop_reverter none = none
stop_reverter (some r) = some (stop r)

module _ (fl : Floats) (tbl : NameplateTable) (p : Parsers fl) (b : Builder) where
  open fl use {F}

  -- A Server; `created` tells its ModbusServer from nil, `looping` whether refreshLoop has been
  -- started.
  pub record Service : Type 0 where
    pub cfg : ServerConfig
    pub published : Published fl tbl
    pub reverter : Option Reverter
    pub looping : Bool
    pub created : Bool

  -- New
  unfoldable pub new_server : ServerConfig → Service
  new_server cfg = record {
    cfg = with_defaults cfg;
    published = initial fl tbl p b;
    reverter = new_reverter cfg.writer;
    looping = false;
    created = false;
  }

  -- Start: the first refresh, whose error is only logged, the loop, then the listener.
  unfoldable pub start_server : Library → Sources F → Service → Option StartError × Service
  start_server lib first s =
      let primed = record s {
        published = refresh_once fl tbl p b s.cfg first s.published;
        looping = true;
      } in
      if not (lib.accepts s.cfg.url s.cfg.timeout s.cfg.max_clients)
      then (some not_created, primed)
      else (if lib.starts then none else some not_started, record primed { created = true })

  -- Whether refreshLoop, once started, panics: time.NewTicker does for an interval that is not positive.
  unfoldable pub loop_panics : Service → Bool
  loop_panics s = s.looping && not (ltb_ℤ (pos 0) s.cfg.refresh_interval)

  -- The rounds of the loop, once it has been started.
  unfoldable pub refreshes : List (Sources F) → Service → Service
  refreshes ticks s =
      if s.looping
      then record s { published = refresh_loop fl tbl p b s.cfg ticks s.published }
      else s

  -- Stop, which gives whether there is no error.
  unfoldable pub stop_server : Library → Service → Bool × Service
  stop_server lib s =
      let quiet = record s { reverter = stop_reverter s.reverter } in
      (if s.created then lib.stops else true, quiet)

  -- A server that New has made and Start has been called on publishes what `run` says, whether the
  -- listener comes up or not.
  pub published-start :
      (lib : Library) (cfg : ServerConfig) (first : Sources F) (ticks : List (Sources F))
      → (refreshes ticks (start_server lib first (new_server cfg)).1).published
        ≡ run fl tbl p b cfg first ticks
  unfolding refreshes start_server new_server run
  published-start lib cfg first ticks = ground (arith)
