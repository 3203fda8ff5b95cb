-- ===== src/Ticker.antt =====
-- ticker.go of pkg/ecnet/ticker: the routine that watches the configuration, and the routines that
-- tick. A routine that `go` made and that has not yet run is in `starting`, one that ticks in
-- `ticking`; the channel `stopTickerCh` has no buffer, so a send waits for a routine that ticks.
pub mod Alone
pub mod Stuck
use erie_canal_net.Base.{
  ℕ, ◌+◌, ◌%◌, ◌^◌, ◌≤◌, Bool, true, false, not, ◌&&◌, ◌||◌, List, [], ◌∷◌, ◌++◌, Option, none,
  some, Text, ◌==◌, nat_eq, list_eq, leb, if◌then◌else◌, is_empty, ◌≡◌,
}

-- A `time.Duration`
pub data ℤ : Type 0 where
  pos : ℕ → ℤ
  negsuc : ℕ → ℤ

abbrev pub at_least : ℤ → ℤ → Bool
at_least (pos a) (pos b) = leb b a
at_least (pos a) (negsuc b) = true
at_least (negsuc a) (pos b) = false
at_least (negsuc a) (negsuc b) = leb a b

abbrev pub is_zero : ℤ → Bool
is_zero (pos n) = n == 0
is_zero (negsuc n) = false

-- What the watcher does once its `stopTicker` returns
pub data After : Type 0 where
  start : ℤ → After
  watch : After
  quit : After

-- The watcher waits for an update, in `stopTicker` for a routine that ticks, or to clear `running`,
-- or it has returned.
pub data Watcher : Type 0 where
  watching : Watcher
  stopping : After → Watcher
  clearing : After → Watcher
  finished : Watcher

-- `ResyncTicker`, with its routines and the events they queued
pub record ResyncTicker : Type 0 where
  pub running : Bool
  pub min_tick_interval : ℤ
  pub invalid_interval_counter : ℕ
  pub starting : List ℤ
  pub ticking : List ℤ
  pub watcher : Watcher
  pub queued : ℕ

-- `NewResyncTicker`, whose watcher is yet to be started
unfoldable pub new_resync_ticker : ℤ → ResyncTicker
new_resync_ticker min = record {
  running = false;
  min_tick_interval = min;
  invalid_interval_counter = 0;
  starting = [];
  ticking = [];
  watcher = finished;
  queued = 0;
}

-- `go r.startTicker(interval)`
abbrev pub go_start_ticker : ℤ → ResyncTicker → ResyncTicker
go_start_ticker interval r = record r { starting = interval ∷ r.starting }

-- The code after `stopTicker`
abbrev pub resume : After → ResyncTicker → ResyncTicker
resume (start interval) r = go_start_ticker interval (record r { watcher = watching })
resume watch r = record r { watcher = watching }
resume quit r = record r { watcher = finished }

abbrev pub after_start : ℤ → ℤ → After
after_start min interval = if at_least interval min then start interval else watch

-- `Start`, before another watcher runs; where a ticker runs, its `stopTicker` is that of the watcher
-- to come.
unfoldable pub start_with : ℤ → ResyncTicker → ResyncTicker
start_with interval r =
    let next = after_start r.min_tick_interval interval in
    if r.running then record r { watcher = stopping next } else resume next r

-- What the watcher reads of a message: the intervals of two configurations, if it holds them.
pub data Message : Type 0 where
  unexpected : Message
  configs : Text → Text → Message

-- `startTicker` begins.
abbrev pub begin : ℤ → List ℤ → ResyncTicker → ResyncTicker
begin interval others r = record r {
  running = true;
  starting = others;
  ticking = interval ∷ r.ticking;
}

-- `parse_duration` is `time.ParseDuration`.
module _ (parse_duration : Text → Option ℤ) where
  change_interval : Option ℤ → ResyncTicker → ResyncTicker
  change_interval none r = r
  change_interval (some interval) r =
      if at_least interval r.min_tick_interval
      then if r.running
        then record r { watcher = stopping (start interval) }
        else go_start_ticker interval r
      else if is_zero interval
      then record r { watcher = stopping watch }
      else record r { invalid_interval_counter = (r.invalid_interval_counter + 1) % 2 ^ 64 }

  -- The case of `watchConfig` that receives an update
  unfoldable pub on_config : Message → ResyncTicker → ResyncTicker
  unfolding change_interval
  on_config unexpected r = r
  on_config (configs old new) r =
      if old == new || is_empty new then r else change_interval (parse_duration new) r

  -- A step of a routine, when the watcher takes an update only in states that are `Allowed`
  pub data Step (Allowed : ResyncTicker → Type 0) : ResyncTicker → ResyncTicker → Type 0 where
    updated :
        {r : ResyncTicker} (m : Message)
        → r.watcher ≡ watching
        → Allowed r
        → Step Allowed r (on_config m r)
    quitted :
        {r : ResyncTicker}
        → r.watcher ≡ watching
        → Step Allowed r (record r { watcher = stopping quit })
    stopped :
        {r : ResyncTicker} (next : After) (interval : ℤ) (before after : List ℤ)
        → r.watcher ≡ stopping next
        → r.ticking ≡ before ++ interval ∷ after
        → Step Allowed r (record r { watcher = clearing next; ticking = before ++ after })
    cleared :
        {r : ResyncTicker} (next : After)
        → r.watcher ≡ clearing next
        → Step Allowed r (resume next (record r { running = false }))
    began :
        {r : ResyncTicker} (interval : ℤ) (before after : List ℤ)
        → r.starting ≡ before ++ interval ∷ after
        → Step Allowed r (begin interval (before ++ after) r)
    ticked :
        {r : ResyncTicker} (interval : ℤ) (before after : List ℤ)
        → r.ticking ≡ before ++ interval ∷ after
        → Step Allowed r (record r { queued = r.queued + 1 })

  pub data Run (Allowed : ResyncTicker → Type 0) (min interval : ℤ) : ResyncTicker → Type 0 where
    opened : Run Allowed min interval (start_with interval (new_resync_ticker min))
    after_step :
        {r next : ResyncTicker}
        → Run Allowed min interval r
        → Step Allowed r next
        → Run Allowed min interval next
