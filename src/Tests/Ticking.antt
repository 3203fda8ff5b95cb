-- ===== src/Tests/Ticking.antt =====
-- The ticker at the intervals that a configuration gives it.
use erie_canal_net.Base.{
  if◌then◌else◌, ◌≡◌, refl, true, false, [], ◌∷◌, Option, none, some, Text, codes, nat_eq, list_eq,
  ◌==◌,
}
use erie_canal_net.Ticker.{
  ℤ, pos, ResyncTicker, watching, stopping, quit, configs, new_resync_ticker, start_with, on_config,
  Step, Run, opened, after_step, began, updated,
}
use erie_canal_net.Ticker.Alone.{Alone, Run-Alone, Settled}
use erie_canal_net.Ticker.Stuck.{Any, Changes, stop_blocks_for_ever, two_updates_tick}

-- Three texts that `time.ParseDuration` reads, in seconds
abbrev durations : Text → Option ℤ
durations t =
    if t == codes "60s"
    then some (pos 60)
    else if t == codes "90s"
    then some (pos 90)
    else if t == codes "0s"
    then some (pos 0)
    else none

-- Not configured to tick at first
abbrev quiet : ResyncTicker
quiet = record {
  running = false;
  min_tick_interval = pos 30;
  invalid_interval_counter = 0;
  starting = [];
  ticking = [];
  watcher = watching;
  queued = 0;
}

abbrev ticking_60 : ResyncTicker
ticking_60 = record quiet { running = true; ticking = pos 60 ∷ [] }

run_60 : Run durations Settled (pos 30) (pos 0) ticking_60
unfolding new_resync_ticker start_with on_config
run_60 =
    after_step (after_step opened (updated (configs (codes "0s") (codes "60s")) refl refl))
      (began (pos 60) [] [] refl)

one_ticks_example : Alone ticking_60
one_ticks_example = Run-Alone durations (pos 30) (pos 0) ticking_60 run_60

changed_to_0 : Changes durations (codes "60s") (codes "0s") (pos 0)
changed_to_0 = record { differs = refl; is_set = refl; parsed = refl }

stop_blocks_example :
    (¬ Step durations Settled
      (on_config durations (configs (codes "60s") (codes "0s")) quiet)
      quiet)
    × (¬ Step durations Settled (record quiet { watcher = stopping quit }) quiet)
stop_blocks_example =
    stop_blocks_for_ever durations Settled (codes "60s") (codes "0s") (pos 0) quiet quiet
      (refl, refl) changed_to_0 refl refl

run_quiet : Run durations Any (pos 30) (pos 0) quiet
unfolding new_resync_ticker start_with
run_quiet = opened

two_tick_example :
    (next : ResyncTicker) × Run durations Any (pos 30) (pos 0) next
    × (next.ticking ≡ pos 60 ∷ pos 90 ∷ [])
two_tick_example =
    two_updates_tick durations (codes "0s") (codes "60s") (codes "90s") (pos 60) (pos 90) (pos 30)
      (pos 0) quiet run_quiet refl refl (record { differs = refl; is_set = refl; parsed = refl })
      (record { differs = refl; is_set = refl; parsed = refl }) refl refl
