-- ===== src/Listener/Rest.antt =====
-- What the broadcast listeners of pkg/ecnet/bridge have done by the time that they rest.
use erie_canal_net.Base.{
  ℕ, ◌+◌, ◌≤◌, ◌≡◌, Bool, true, false, ◌||◌, List, [], ◌∷◌, Option, none, some, arith, suc,
  if◌then◌else◌, refl,
}
use erie_canal_net.Listener.{
  Listener, Action, update, expire, start_job, retry, end_job, new_listener, on_update, on_expiry,
  on_timer, sliding_timer_reset, after_job, Run, begun, updated, expired, started, retried, ended,
  confirm_wait,
}

-- The jobs begun since the last update, or since the listener began
abbrev pub jobs_since : List Action → ℕ
jobs_since [] = 0
jobs_since (update now ∷ h) = 0
jobs_since (expire now ∷ h) = jobs_since h
jobs_since (start_job now ∷ h) = suc (jobs_since h)
jobs_since (retry now ∷ h) = jobs_since h
jobs_since (end_job now ∷ h) = jobs_since h

-- Whether the last job asked for a retry
abbrev pub asked_retry : List Action → Bool
asked_retry [] = false
asked_retry (update now ∷ h) = asked_retry h
asked_retry (expire now ∷ h) = asked_retry h
asked_retry (start_job now ∷ h) = false
asked_retry (retry now ∷ h) = true
asked_retry (end_job now ∷ h) = asked_retry h

abbrev pub is_armed : Option ℕ → Bool
is_armed none = false
is_armed (some at) = true

-- The timer will fire, or has fired.
abbrev pub is_awake : Listener → Bool
is_awake l = is_armed l.sliding_timer || l.fired

record Owes (h : List Action) (l : Listener) : Type 0 where
  reconfirms : l.reconfirm ≡ true → l.in_job ≡ false → is_awake l ≡ true
  confirming : l.reconfirm ≡ true → l.in_job ≡ true → 1 ≤ jobs_since h
  waiting : l.reconfirm ≡ false → 1 ≤ jobs_since h
  resting : l.reconfirm ≡ false → l.in_job ≡ true → 2 ≤ jobs_since h
  confirmed : l.reconfirm ≡ false → is_awake l ≡ false → 2 ≤ jobs_since h
  keeps_retry : asked_retry h ≡ true → is_awake l ≡ true

ended-Owes :
    (now : ℕ) (h : List Action) (l : Listener)
    → l.in_job ≡ true
    → Owes h l
    → (again : Bool) → l.reconfirm ≡ again
    → Owes (end_job now ∷ h) (
        if again
        then record l {
          in_job = false;
          reconfirm = false;
          sliding_timer = some (now + confirm_wait);
        }
        else record l { in_job = false })
ended-Owes now h l job o true e = record {
  reconfirms = λ a b. ground (arith, a);
  confirming = λ a b. ground (arith, a);
  waiting = λ a. o.confirming e job;
  resting = λ a b. ground (arith, b);
  confirmed = λ a b. ground (arith, b);
  keeps_retry = λ a. refl;
}
ended-Owes now h l job o false e = record {
  reconfirms = λ a b. ground (arith, a, e);
  confirming = λ a b. ground (arith, b);
  waiting = λ a. o.waiting e;
  resting = λ a b. ground (arith, b);
  confirmed = λ a b. o.resting e job;
  keeps_retry = λ a. o.keeps_retry a;
}

module _ (retries : Bool) (first_wait begin : ℕ) where
  Run-Owes : (h : List Action) (l : Listener) → Run retries first_wait begin h l → Owes h l
  unfolding new_listener on_update on_expiry on_timer sliding_timer_reset after_job
  Run-Owes [] l begun = record {
    reconfirms = λ a b. refl;
    confirming = λ a b. ground (arith, a, b);
    waiting = λ a. ground (arith, a);
    resting = λ a b. ground (arith, a, b);
    confirmed = λ a b. ground (arith, a, b);
    keeps_retry = λ a. ground (arith, a);
  }
  Run-Owes (_ ∷ h) _ (updated {l} now idle r) =
      let o = Run-Owes h l r in
      record {
        reconfirms = λ a b. refl;
        confirming = λ a b. ground (arith, b, idle);
        waiting = λ a. ground (arith, a);
        resting = λ a b. ground (arith, a, b);
        confirmed = λ a b. ground (arith, a, b);
        keeps_retry = λ a. refl;
      }
  Run-Owes (_ ∷ h) _ (expired {l} now at t le r) =
      let o = Run-Owes h l r in
      record {
        reconfirms = λ a b. refl;
        confirming = λ a b. o.confirming a b;
        waiting = λ a. o.waiting a;
        resting = λ a b. o.resting a b;
        confirmed = λ a b. ground (arith, b);
        keeps_retry = λ a. refl;
      }
  Run-Owes (_ ∷ h) _ (started {l} now idle f r) =
      let o = Run-Owes h l r in
      record {
        reconfirms = λ a b. ground (arith, b);
        confirming = λ a b. omega arith;
        waiting = λ a. omega arith;
        resting = λ a b. ground (arith, o.waiting a);
        confirmed = λ a b. ground (arith, o.waiting a);
        keeps_retry = λ a. ground (arith, a);
      }
  Run-Owes (_ ∷ h) _ (retried {l} now can job r) =
      let o = Run-Owes h l r in
      record {
        reconfirms = λ a b. refl;
        confirming = λ a b. o.confirming a b;
        waiting = λ a. o.waiting a;
        resting = λ a b. o.resting a b;
        confirmed = λ a b. ground (arith, b);
        keeps_retry = λ a. refl;
      }
  Run-Owes (_ ∷ h) _ (ended {l} now job r) =
      let o = Run-Owes h l r in ended-Owes now h l job o l.reconfirm refl

  -- When the listener waits for no job, its timer is not armed and has not fired, then at least two jobs
  -- have begun since the last update, or since it began if there was none, and the last job did not ask
  -- for a retry after it had begun.
  pub rest_confirmed :
      (h : List Action) (l : Listener)
      → Run retries first_wait begin h l
      → l.in_job ≡ false
      → l.sliding_timer ≡ none
      → l.fired ≡ false
      → (2 ≤ jobs_since h) × (asked_retry h ≡ false)
  rest_confirmed h l r idle unarmed quiet =
      let o = Run-Owes h l r in
      (
        ground (arith, o.reconfirms, o.confirmed, idle, unarmed, quiet),
        ground (arith, o.keeps_retry, unarmed, quiet),
      )
