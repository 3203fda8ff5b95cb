-- ===== src/Ticker/Stuck.antt =====
-- Where the routines of pkg/ecnet/ticker/ticker.go get stuck, and where two of them tick.
use erie_canal_net.Base.{
  ◌≡◌, refl, ap, sym, ◌∙◌, subst, true, false, List, [], ◌∷◌, ◌++◌, Option, some, Text, ◌==◌,
  nat_eq, list_eq, arith, length, length-append, is_empty,
}
use erie_canal_net.Ticker.{
  ℤ, ResyncTicker, watching, stopping, After, watch, quit, configs, at_least, is_zero, on_config,
  go_start_ticker, begin, Step, Run, updated, quitted, stopped, cleared, began, ticked, after_step,
}

-- No routine ticks or waits to begin.
abbrev pub Idle : ResyncTicker → Type 0
Idle r = (r.starting ≡ []) × (r.ticking ≡ [])

nothing_inserted : (before after : List ℤ) (interval : ℤ) → ¬ ([] ≡ before ++ interval ∷ after)
nothing_inserted before after interval e =
    omega (arith, ap length e, length-append before (interval ∷ after))

-- The update of the interval is seen by the watcher.
pub record Changes (parse_duration : Text → Option ℤ) (old new : Text) (interval : ℤ) : Type 0 where
  pub differs : (old == new) ≡ false
  pub is_set : is_empty new ≡ false
  pub parsed : parse_duration new ≡ some interval

module _ (parse_duration : Text → Option ℤ) (Allowed : ResyncTicker → Type 0) where
  stop_waits :
      (r next : ResyncTicker) (then_do : After)
      → Idle r
      → r.watcher ≡ stopping then_do
      → ¬ Step parse_duration Allowed r next
  stop_waits r _ k idle w (updated m v a) = ground (arith, v, w)
  stop_waits r _ k idle w (quitted v) = ground (arith, v, w)
  stop_waits r _ k idle w (stopped _ i before after v t) =
      nothing_inserted before after i (sym idle.1 ∙ t)
  stop_waits r _ k idle w (cleared _ v) = ground (arith, v, w)
  stop_waits r _ k idle w (began i before after s) =
      nothing_inserted before after i (sym idle.0 ∙ s)
  stop_waits r _ k idle w (ticked i before after t) =
      nothing_inserted before after i (sym idle.1 ∙ t)

  on_config-stop :
      (old new : Text) (interval : ℤ) (r : ResyncTicker)
      → Changes parse_duration old new interval
      → is_zero interval ≡ true
      → at_least interval r.min_tick_interval ≡ false
      → on_config parse_duration (configs old new) r ≡ record r { watcher = stopping watch }
  unfolding on_config
  on_config-stop old new interval r c z l = rw (on_config, c.differs, c.is_set, c.parsed, l, z) refl

  -- Where no routine ticks or waits to begin, an update of the interval to zero, which is less than
  -- the least interval, and the end of the program both leave the watcher in `stopTicker` with no
  -- step of any routine to follow: it is blocked for ever.
  pub stop_blocks_for_ever :
      (old new : Text) (interval : ℤ) (r next : ResyncTicker)
      → Idle r
      → Changes parse_duration old new interval
      → is_zero interval ≡ true
      → at_least interval r.min_tick_interval ≡ false
      → (¬ Step parse_duration Allowed (on_config parse_duration (configs old new) r) next)
        × (¬ Step parse_duration Allowed (record r { watcher = stopping quit }) next)
  stop_blocks_for_ever old new interval r next idle c z l = (
    subst (λ s. ¬ Step parse_duration Allowed s next)
        (sym (on_config-stop old new interval r c z l))
        (stop_waits (record r { watcher = stopping watch }) next watch idle refl),
    stop_waits (record r { watcher = stopping quit }) next quit idle refl,
  )

-- Every state is allowed.
abbrev pub Any : ResyncTicker → Type 0
Any r = Unit

module _ (parse_duration : Text → Option ℤ) where
  on_config-start :
      (old new : Text) (interval : ℤ) (r : ResyncTicker)
      → Changes parse_duration old new interval
      → at_least interval r.min_tick_interval ≡ true
      → r.running ≡ false
      → on_config parse_duration (configs old new) r ≡ go_start_ticker interval r
  unfolding on_config
  on_config-start old new interval r c g off =
      rw (on_config, c.differs, c.is_set, c.parsed, g, off) refl

  updated-start :
      (old new : Text) (i min interval : ℤ) (r : ResyncTicker)
      → r.watcher ≡ watching
      → Changes parse_duration old new i
      → at_least i r.min_tick_interval ≡ true
      → r.running ≡ false
      → Run parse_duration Any min interval r
      → Run parse_duration Any min interval (go_start_ticker i r)
  updated-start old new i min interval r w c g off run =
      subst (Run parse_duration Any min interval) (on_config-start old new i r c g off)
        (after_step run (updated (configs old new) w tt))

  -- Where the watcher waits and no ticker runs, two updates of the interval in a row, to intervals
  -- that are not less than the least one, lead to a state in which one more routine ticks for each of
  -- the two.
  pub two_updates_tick :
      (a b c : Text) (i j min interval : ℤ) (r : ResyncTicker)
      → Run parse_duration Any min interval r
      → r.watcher ≡ watching
      → r.running ≡ false
      → Changes parse_duration a b i
      → Changes parse_duration b c j
      → at_least i r.min_tick_interval ≡ true
      → at_least j r.min_tick_interval ≡ true
      → (next : ResyncTicker) × Run parse_duration Any min interval next
        × (next.ticking ≡ i ∷ j ∷ r.ticking)
  two_updates_tick a b c i j min interval r run w off ci cj gi gj =
      let first = go_start_ticker i r in
      let second = go_start_ticker j first in
      let pending =
        updated-start b c j min interval first w cj gj off
          (updated-start a b i min interval r w ci gi off run) in
      let one_ticks = begin j (i ∷ r.starting) second in
      (
        begin i r.starting one_ticks,
        after_step (after_step pending (began j [] (i ∷ r.starting) refl))
            (began i [] r.starting refl),
        refl,
      )
