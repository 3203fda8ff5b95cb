-- ===== src/Listener.antt =====
-- broadcast.go of pkg/ecnet/bridge/ctrlplane/server and of pkg/ecnet/bridge/dataplane/server: the loop of
-- `broadcastListener`, over the cases of its `select`. Time is counted in seconds.
pub mod Rest
use erie_canal_net.Base.{
  ℕ, ◌+◌, ◌≤◌, ◌≡◌, Bool, true, false, ◌||◌, List, [], ◌∷◌, Option, none, some, if◌then◌else◌,
}

-- The waiting times: before the first run, after an update or a retry, and before the run that confirms
abbrev pub ctrlplane_first_wait : ℕ
ctrlplane_first_wait = 20

abbrev pub dataplane_first_wait : ℕ
dataplane_first_wait = 10

abbrev pub update_wait : ℕ
update_wait = 5

abbrev pub confirm_wait : ℕ
confirm_wait = 10

-- The timer is armed with a time, or has fired into its channel, or neither; a reset does not drain the
-- channel, so both may hold. The listener waits for a job that it has queued.
pub record Listener : Type 0 where
  pub sliding_timer : Option ℕ
  pub fired : Bool
  pub reconfirm : Bool
  pub in_job : Bool

-- What happened, newest first.
pub data Action : Type 0 where
  update : ℕ → Action
  expire : ℕ → Action
  start_job : ℕ → Action
  retry : ℕ → Action
  end_job : ℕ → Action

unfoldable pub new_listener : ℕ → ℕ → Listener
new_listener first_wait now = record {
  sliding_timer = some (now + first_wait);
  fired = false;
  reconfirm = true;
  in_job = false;
}

-- `case <-proxyUpdateChan`
unfoldable pub on_update : ℕ → Listener → Listener
on_update now l = record l { sliding_timer = some (now + update_wait); reconfirm = true }

unfoldable pub on_expiry : Listener → Listener
on_expiry l = record l { sliding_timer = none; fired = true }

-- `case <-slidingTimer.C`, up to the job
unfoldable pub on_timer : Listener → Listener
on_timer l = record l { fired = false; in_job = true }

-- `slidingTimerReset`, which the control plane's job calls where it is not ready
unfoldable pub sliding_timer_reset : ℕ → Listener → Listener
sliding_timer_reset now l = record l { sliding_timer = some (now + update_wait) }

-- What follows the job
unfoldable pub after_job : ℕ → Listener → Listener
after_job now l =
    if l.reconfirm
    then record l { in_job = false; reconfirm = false; sliding_timer = some (now + confirm_wait) }
    else record l { in_job = false }

-- The runs of a listener that began at a time. `retries` is whether its jobs can ask for a retry.
pub data Run (retries : Bool) (first_wait begin : ℕ) : List Action → Listener → Type 0 where
  begun : Run retries first_wait begin [] (new_listener first_wait begin)
  updated :
      {h : List Action} {l : Listener} (now : ℕ)
      → l.in_job ≡ false
      → Run retries first_wait begin h l
      → Run retries first_wait begin (update now ∷ h) (on_update now l)
  expired :
      {h : List Action} {l : Listener} (now at : ℕ)
      → l.sliding_timer ≡ some at
      → at ≤ now
      → Run retries first_wait begin h l
      → Run retries first_wait begin (expire now ∷ h) (on_expiry l)
  started :
      {h : List Action} {l : Listener} (now : ℕ)
      → l.in_job ≡ false
      → l.fired ≡ true
      → Run retries first_wait begin h l
      → Run retries first_wait begin (start_job now ∷ h) (on_timer l)
  retried :
      {h : List Action} {l : Listener} (now : ℕ)
      → retries ≡ true
      → l.in_job ≡ true
      → Run retries first_wait begin h l
      → Run retries first_wait begin (retry now ∷ h) (sliding_timer_reset now l)
  ended :
      {h : List Action} {l : Listener} (now : ℕ)
      → l.in_job ≡ true
      → Run retries first_wait begin h l
      → Run retries first_wait begin (end_job now ∷ h) (after_job now l)
