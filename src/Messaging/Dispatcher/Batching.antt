-- ===== src/Messaging/Dispatcher/Batching.antt =====
-- How `runProxyUpdateDispatcher` of pkg/ecnet/messaging/broker.go batches events.
use erie_canal_net.Base.{ℕ, ◌+◌, ◌≡◌, refl, true, not, List, [], ◌∷◌, arith, length, is_empty}
use erie_canal_net.Messaging.Dispatcher.{
  Dispatcher, Action, receive, slide, cap, Run, started, received, slid, capped, new_dispatcher,
  on_event, on_sliding_timer, on_max_timer, no_timeout, proxy_update_sliding_window,
  proxy_update_max_window,
}

module _ {E : Type 0} where
  -- The events since the last dispatch, newest first, with their times.
  abbrev pub batch : List (Action E) → List (ℕ × E)
  batch [] = []
  batch (receive now e ∷ h) = (now, e) ∷ batch h
  batch (slide now ∷ h) = []
  batch (cap now ∷ h) = []

  -- When the dispatcher began or last dispatched.
  abbrev pub last_dispatch : ℕ → List (Action E) → ℕ
  last_dispatch begin [] = begin
  last_dispatch begin (receive now e ∷ h) = last_dispatch begin h
  last_dispatch begin (slide now ∷ h) = now
  last_dispatch begin (cap now ∷ h) = now

  abbrev pub first_time : ℕ × E → List (ℕ × E) → ℕ
  first_time (now, e) [] = now
  first_time _ (x ∷ xs) = first_time x xs

  -- The newest event of each batch, newest batch first; the event before, where a batch is empty.
  abbrev pub newest : E → List (Action E) → E
  newest no_event [] = no_event
  newest no_event (receive now e ∷ h) = e
  newest no_event (slide now ∷ h) = newest no_event h
  newest no_event (cap now ∷ h) = newest no_event h

  abbrev pub dispatched : E → List (Action E) → List E
  dispatched no_event [] = []
  dispatched no_event (receive now e ∷ h) = dispatched no_event h
  dispatched no_event (slide now ∷ h) = newest no_event h ∷ dispatched no_event h
  dispatched no_event (cap now ∷ h) = newest no_event h ∷ dispatched no_event h

  -- The deadlines: those of the batch, or far after the last dispatch.
  abbrev pub Deadlines : ℕ → List (ℕ × E) → Dispatcher E → Type 0
  Deadlines last [] d = (d.sliding_timer ≡ last + no_timeout) × (d.max_timer ≡ last + no_timeout)
  Deadlines last ((now, e) ∷ xs) d =
      (d.sliding_timer ≡ now + proxy_update_sliding_window)
      × (d.max_timer ≡ first_time (now, e) xs + proxy_update_max_window)

  pub record Batched (no_event : E) (begin : ℕ) (h : List (Action E)) (d : Dispatcher E)
      : Type 0 where
    pub pending : d.dispatch_pending ≡ not (is_empty (batch h))
    pub count : d.batch_count ≡ length (batch h)
    pub newest_kept : d.event ≡ newest no_event h
    pub published_all : d.published ≡ dispatched no_event h
    pub deadlines : Deadlines (last_dispatch begin h) (batch h) d

  Deadlines-on_event :
      (last now : ℕ) (e : E) (xs : List (ℕ × E)) (d : Dispatcher E)
      → d.dispatch_pending ≡ not (is_empty xs)
      → Deadlines last xs d
      → Deadlines last ((now, e) ∷ xs) (on_event now e d)
  unfolding on_event
  Deadlines-on_event last now e [] d p h = rw (on_event, p) (refl, refl)
  Deadlines-on_event last now e (x ∷ xs) d p h = rw (on_event, p) (refl, h.1)

  on_event_fields :
      (now : ℕ) (e : E) (d : Dispatcher E)
      → ((on_event now e d).dispatch_pending ≡ true)
        × ((on_event now e d).batch_count ≡ d.batch_count + 1)
        × ((on_event now e d).event ≡ e)
        × ((on_event now e d).published ≡ d.published)
  unfolding on_event
  on_event_fields now e d = ground arith

  -- At every time of the dispatcher's loop: an event is pending just if the batch, the events since
  -- the last dispatch, is not empty; the count is that of the batch; the event is the newest; just
  -- the newest event of each batch was published, in order; the sliding timer fires two seconds after
  -- the newest event of the batch and the max timer ten seconds after its first, or both a decade
  -- after the last dispatch if the batch is empty.
  pub Run-Batched :
      (no_event : E) (begin : ℕ) (h : List (Action E)) (d : Dispatcher E)
      → Run no_event begin h d
      → Batched no_event begin h d
  unfolding new_dispatcher on_event on_sliding_timer on_max_timer
  Run-Batched no_event begin [] d started = record {
    pending = refl;
    count = refl;
    newest_kept = refl;
    published_all = refl;
    deadlines = (refl, refl);
  }
  Run-Batched no_event begin (_ ∷ h) _ (received {d} now e r) =
      let b = Run-Batched no_event begin h d r in
      let (pending, count, event, published) = on_event_fields now e d in
      record {
        pending = pending;
        count = ground (arith, count, b.count);
        newest_kept = event;
        published_all = ground (arith, published, b.published_all);
        deadlines =
            Deadlines-on_event (last_dispatch begin h) now e (batch h) d b.pending b.deadlines;
      }
  Run-Batched no_event begin (_ ∷ h) _ (slid {d} now le r) =
      let b = Run-Batched no_event begin h d r in
      record {
        pending = refl;
        count = refl;
        newest_kept = b.newest_kept;
        published_all = ground (arith, b.newest_kept, b.published_all);
        deadlines = (refl, refl);
      }
  Run-Batched no_event begin (_ ∷ h) _ (capped {d} now le r) =
      let b = Run-Batched no_event begin h d r in
      record {
        pending = refl;
        count = refl;
        newest_kept = b.newest_kept;
        published_all = ground (arith, b.newest_kept, b.published_all);
        deadlines = (refl, refl);
      }
