-- ===== src/Messaging/Dispatcher.antt =====
-- broker.go of pkg/ecnet/messaging: `runProxyUpdateDispatcher`, as the cases of its `select`. Time is
-- counted in seconds; a timer is the time at which it fires. A timer that has fired is drained before
-- it is reset, so its deadline is all that is left of it.
pub mod Batching
use erie_canal_net.Base.{
  ℕ, ◌+◌, ◌%◌, ◌^◌, ◌≤◌, Bool, true, false, List, [], ◌∷◌, ◌++◌, if◌then◌else◌,
}

abbrev pub proxy_update_sliding_window : ℕ
proxy_update_sliding_window = 2

abbrev pub proxy_update_max_window : ℕ
proxy_update_max_window = 10

-- 87600 hours
abbrev pub no_timeout : ℕ
no_timeout = 315360000

-- The local variables of the dispatcher, what it has published, newest first, and the counter.
pub record Dispatcher (E : Type 0) : Type 0 where
  pub sliding_timer : ℕ
  pub max_timer : ℕ
  pub dispatch_pending : Bool
  pub batch_count : ℕ
  pub event : E
  pub published : List E
  pub total_dispatched : ℕ

-- What the dispatcher did, newest first.
pub data Action (E : Type 0) : Type 0 where
  receive : ℕ → E → Action E
  slide : ℕ → Action E
  cap : ℕ → Action E

module _ {E : Type 0} where
  -- `no_event` is the zero value of `proxyUpdateEvent`.
  unfoldable pub new_dispatcher : E → ℕ → Dispatcher E
  new_dispatcher no_event now = record {
    sliding_timer = now + no_timeout;
    max_timer = now + no_timeout;
    dispatch_pending = false;
    batch_count = 0;
    event = no_event;
    published = [];
    total_dispatched = 0;
  }

  -- `case e, ok := <-b.proxyUpdateCh`
  unfoldable pub on_event : ℕ → E → Dispatcher E → Dispatcher E
  on_event now e d =
      if d.dispatch_pending
      then record d {
        event = e;
        sliding_timer = now + proxy_update_sliding_window;
        batch_count = d.batch_count + 1;
      }
      else record d {
        event = e;
        sliding_timer = now + proxy_update_sliding_window;
        max_timer = now + proxy_update_max_window;
        dispatch_pending = true;
        batch_count = d.batch_count + 1;
      }

  -- `case <-slidingTimer.C`
  unfoldable pub on_sliding_timer : ℕ → Dispatcher E → Dispatcher E
  on_sliding_timer now d = record d {
    sliding_timer = now + no_timeout;
    max_timer = now + no_timeout;
    published = d.event ∷ d.published;
    total_dispatched = (d.total_dispatched + 1) % 2 ^ 64;
    dispatch_pending = false;
    batch_count = 0;
  }

  -- `case <-maxTimer.C`
  unfoldable pub on_max_timer : ℕ → Dispatcher E → Dispatcher E
  on_max_timer now d = record d {
    max_timer = now + no_timeout;
    sliding_timer = now + no_timeout;
    published = d.event ∷ d.published;
    total_dispatched = (d.total_dispatched + 1) % 2 ^ 64;
    dispatch_pending = false;
    batch_count = 0;
  }

  -- The loop: an event may come at any time, a timer fires at its deadline or later.
  pub data Run (no_event : E) (begin : ℕ) : List (Action E) → Dispatcher E → Type 0 where
    started : Run no_event begin [] (new_dispatcher no_event begin)
    received :
        {h : List (Action E)} {d : Dispatcher E} (now : ℕ) (e : E)
        → Run no_event begin h d
        → Run no_event begin (receive now e ∷ h) (on_event now e d)
    slid :
        {h : List (Action E)} {d : Dispatcher E} (now : ℕ)
        → d.sliding_timer ≤ now
        → Run no_event begin h d
        → Run no_event begin (slide now ∷ h) (on_sliding_timer now d)
    capped :
        {h : List (Action E)} {d : Dispatcher E} (now : ℕ)
        → d.max_timer ≤ now
        → Run no_event begin h d
        → Run no_event begin (cap now ∷ h) (on_max_timer now d)
