-- ===== src/Ticker/Alone.antt =====
-- How many routines of pkg/ecnet/ticker/ticker.go tick.
use erie_canal_net.Base.{
  ℕ, ◌+◌, ◌≤◌, ◌≡◌, refl, ap, ◌∙◌, Bool, true, false, ◌||◌, List, [], ◌∷◌, ◌++◌, Option, none, some,
  Text, ◌==◌, nat_eq, list_eq, arith, length, length-append, is_empty, inl, inr, Bool-cases,
}
use erie_canal_net.Ticker.{
  ℤ, ResyncTicker, Watcher, watching, stopping, clearing, finished, After, start, watch, quit,
  Message, unexpected, configs, at_least, is_zero, new_resync_ticker, start_with, on_config,
  change_interval, resume, go_start_ticker, Step, Run, updated, quitted, stopped, cleared, began,
  ticked, opened, after_step,
}

abbrev pub routines : ResyncTicker → ℕ
routines r = length r.starting + length r.ticking

abbrev pub is_clearing : Watcher → Bool
is_clearing watching = false
is_clearing (stopping next) = false
is_clearing (clearing next) = true
is_clearing finished = false

-- No routine waits to begin.
abbrev pub Settled : ResyncTicker → Type 0
Settled r = r.starting ≡ []

pub record Alone (r : ResyncTicker) : Type 0 where
  pub at_most_one : routines r ≤ 1
  pub none_clearing : is_clearing r.watcher ≡ true → routines r ≡ 0
  pub not_running : r.running ≡ false → length r.ticking ≡ 0
  pub is_running : r.running ≡ true → is_clearing r.watcher ≡ false → length r.ticking ≡ 1

length-insert :
    (before after : List ℤ) (interval : ℤ)
    → length (before ++ interval ∷ after) ≡ length (before ++ after) + 1
length-insert before after interval =
    omega (arith, length-append before (interval ∷ after), length-append before after)

-- A pending start, where no routine ticks or waits
Alone-go_start_ticker :
    (interval : ℤ) (r : ResyncTicker)
    → Alone r
    → r.running ≡ false
    → r.starting ≡ []
    → is_clearing r.watcher ≡ false
    → Alone (go_start_ticker interval (record r { running = false }))
Alone-go_start_ticker interval r a off s w =
    let t0 = a.not_running off in
    let s0 = ap length s in
    record {
      at_most_one = omega (arith, t0, s0);
      none_clearing = λ c. ground (arith, c, w);
      not_running = λ _. t0;
      is_running = λ on. ground (arith, on);
    }

-- A change of nothing but the watcher
Alone-watcher :
    (w : Watcher) (r : ResyncTicker) (on : Bool)
    → r.running ≡ on
    → is_clearing w ≡ false
    → is_clearing r.watcher ≡ false
    → Alone r
    → Alone (record r { running = on; watcher = w })
Alone-watcher w r on same c1 c2 a = record {
  at_most_one = a.at_most_one;
  none_clearing = λ c. ground (arith, c, c1);
  not_running = λ off. a.not_running (same ∙ off);
  is_running = λ yes _. a.is_running (same ∙ yes) c2;
}

Alone-idle :
    (w : Watcher) (r : ResyncTicker)
    → is_clearing w ≡ false
    → routines r ≡ 0
    → Alone (record r { running = false; watcher = w })
Alone-idle w r c t0 = record {
  at_most_one = omega (arith, t0);
  none_clearing = λ _. t0;
  not_running = λ _. omega (arith, t0);
  is_running = λ on. ground (arith, on);
}

module _ (parse_duration : Text → Option ℤ) where
  Alone-change_interval :
      (o : Option ℤ) (r : ResyncTicker)
      → is_clearing r.watcher ≡ false
      → Settled r
      → Alone r
      → Alone (change_interval parse_duration o r)
  unfolding change_interval
  Alone-change_interval none r w s a = a
  Alone-change_interval (some i) r w s a = elim (Bool-cases (at_least i r.min_tick_interval)) [
    | inl e ↦ elim (Bool-cases r.running) [
      | inl on ↦ rw (change_interval, e, on) (Alone-watcher (stopping (start i)) r true on refl w a)
      | inr off ↦ rw (change_interval, e, off) (Alone-go_start_ticker i r a off s w)
    ]
    | inr e ↦ elim (Bool-cases (is_zero i)) [
      | inl z ↦
          rw (change_interval, e, z) (Alone-watcher (stopping watch) r r.running refl refl w a)
      | inr z ↦
          rw (change_interval, e, z)
            (record {
              at_most_one = a.at_most_one;
              none_clearing = a.none_clearing;
              not_running = a.not_running;
              is_running = a.is_running;
            })
    ]
  ]

  Alone-on_config :
      (m : Message) (r : ResyncTicker)
      → is_clearing r.watcher ≡ false
      → Settled r
      → Alone r
      → Alone (on_config parse_duration m r)
  unfolding on_config
  Alone-on_config unexpected r w s a = a
  Alone-on_config (configs old new) r w s a = elim (Bool-cases (old == new || is_empty new)) [
    | inl same ↦ rw (on_config, same) a
    | inr changed ↦ rw (on_config, changed) (Alone-change_interval (parse_duration new) r w s a)
  ]

  Alone-resume :
      (next : After) (r : ResyncTicker)
      → r.watcher ≡ clearing next
      → Alone r
      → Alone (resume next (record r { running = false }))
  Alone-resume (start i) r w a =
      let t0 = a.none_clearing (ap is_clearing w) in
      record {
        at_most_one = omega (arith, t0);
        none_clearing = λ c. ground (arith, c);
        not_running = λ _. omega (arith, t0);
        is_running = λ on. ground (arith, on);
      }
  Alone-resume watch r w a = Alone-idle watching r refl (a.none_clearing (ap is_clearing w))
  Alone-resume quit r w a = Alone-idle finished r refl (a.none_clearing (ap is_clearing w))

  Alone-Step : (r next : ResyncTicker) → Step parse_duration Settled r next → Alone r → Alone next
  Alone-Step r _ (updated m w s) a = Alone-on_config m r (ap is_clearing w) s a
  Alone-Step r _ (quitted w) a =
      Alone-watcher (stopping quit) r r.running refl refl (ap is_clearing w) a
  Alone-Step r _ (stopped next i before after w t) a =
      let n = ap length t in
      let m = length-insert before after i in
      record {
        at_most_one = omega (arith, a.at_most_one, n, m);
        none_clearing = λ _. omega (arith, a.at_most_one, n, m);
        not_running = λ _. omega (arith, a.at_most_one, n, m);
        is_running = λ _ c. ground (arith, c);
      }
  Alone-Step r _ (cleared next w) a = Alone-resume next r w a
  Alone-Step r _ (began i before after s) a =
      let n = ap length s in
      let m = length-insert before after i in
      record {
        at_most_one = omega (arith, a.at_most_one, n, m);
        none_clearing = λ c. omega (arith, a.none_clearing c, n, m);
        not_running = λ off. ground (arith, off);
        is_running = λ _ _. omega (arith, a.at_most_one, n, m);
      }
  Alone-Step r _ (ticked i before after t) a = record {
    at_most_one = a.at_most_one;
    none_clearing = a.none_clearing;
    not_running = a.not_running;
    is_running = a.is_running;
  }

  Alone-start_with : (min interval : ℤ) → Alone (start_with interval (new_resync_ticker min))
  unfolding start_with new_resync_ticker
  Alone-start_with min interval = elim (Bool-cases (at_least interval min)) [
    | inl e ↦
        rw (start_with, new_resync_ticker, e)
          (record {
            at_most_one = omega arith;
            none_clearing = λ c. ground (arith, c);
            not_running = λ _. refl;
            is_running = λ on. ground (arith, on);
          })
    | inr e ↦
        rw (start_with, new_resync_ticker, e)
          (record {
            at_most_one = omega arith;
            none_clearing = λ c. ground (arith, c);
            not_running = λ _. refl;
            is_running = λ on. ground (arith, on);
          })
  ]

  -- If the watcher takes an update of the configuration only when no routine that it made is still
  -- waiting to begin, then at every time of a run at most one routine ticks or waits to begin; and,
  -- except between the end of that routine and the clearing of `running`, a routine ticks just if
  -- `running` is set.
  pub Run-Alone :
      (min interval : ℤ) (r : ResyncTicker) → Run parse_duration Settled min interval r → Alone r
  Run-Alone min interval _ opened = Alone-start_with min interval
  Run-Alone min interval r (after_step {r = before} run step) =
      Alone-Step before r step (Run-Alone min interval before run)
