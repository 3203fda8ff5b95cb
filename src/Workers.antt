-- ===== src/Workers.antt =====
-- workerpool.go of pkg/ecnet/workerpool: the pool as a step relation, in which each worker moves on its
-- own.
pub mod Jobs
use erie_canal_net.Base.{
  ℕ, ◌<◌, ◌≡◌, nat_eq, ◌==◌, Bool, true, false, List, [], ◌∷◌, ◌++◌, length, if◌then◌else◌, suc,
  zero,
}

module _ (J : Type 0) where
  -- A worker waits in its `select`, runs a job, or has returned.
  pub data Worker : Type 0 where
    idle gone : Worker
    busy : J → Worker

  -- What happened, newest first.
  pub data Event : Type 0 where
    add take finish : J → Event
    stop quit : Event

module _ {J : Type 0} where
  abbrev pub replicate : ℕ → Worker J → List (Worker J)
  replicate zero w = []
  replicate (suc n) w = w ∷ replicate n w

-- `jobs` is the channel, oldest first, which holds as many jobs as there are workers.
pub record Pool (J : Type 0) : Type 0 where
  pub n_workers : ℕ
  pub jobs : List J
  pub workers : List (Worker J)
  pub stopped : Bool
  pub finished : List J

module _ {J : Type 0} where
  -- `NewWorkerPool`; `procs` is GOMAXPROCS, and the number given is not negative.
  unfoldable pub new_worker_pool : ℕ → ℕ → Pool J
  new_worker_pool procs given =
      let n = if given == 0 then procs else given in
      record {
        n_workers = n;
        jobs = [];
        workers = replicate n idle;
        stopped = false;
        finished = [];
      }

  -- `AddJob`, where the channel has room
  unfoldable pub add_job : J → Pool J → Pool J
  add_job j p = record p { jobs = p.jobs ++ j ∷ [] }

  -- `GetWorkerNumber`
  abbrev pub get_worker_number : Pool J → ℕ
  get_worker_number p = p.n_workers

  -- `Stop`, up to its wait
  unfoldable pub close_stop : Pool J → Pool J
  close_stop p = record p { stopped = true }

  -- The runs of a pool. A worker takes the oldest job whether the pool is stopped or not; `select` may
  -- choose either. `AddJob` waits while the channel is full.
  pub data Run (procs given : ℕ) : List (Event J) → Pool J → Type 0 where
    created : Run procs given [] (new_worker_pool procs given)
    added :
        {h : List (Event J)} {p : Pool J} (j : J)
        → length p.jobs < p.n_workers
        → Run procs given h p
        → Run procs given (add j ∷ h) (add_job j p)
    took :
        {h : List (Event J)} {p : Pool J} (before after : List (Worker J)) (j : J) (rest : List J)
        → p.workers ≡ before ++ idle ∷ after
        → p.jobs ≡ j ∷ rest
        → Run procs given h p
        → Run procs given
            (take j ∷ h)
            (record p { workers = before ++ busy j ∷ after; jobs = rest })
    ran :
        {h : List (Event J)} {p : Pool J} (before after : List (Worker J)) (j : J)
        → p.workers ≡ before ++ busy j ∷ after
        → Run procs given h p
        → Run procs given
            (finish j ∷ h)
            (record p { workers = before ++ idle ∷ after; finished = j ∷ p.finished })
    closed :
        {h : List (Event J)} {p : Pool J}
        → p.stopped ≡ false
        → Run procs given h p
        → Run procs given (stop ∷ h) (close_stop p)
    returned :
        {h : List (Event J)} {p : Pool J} (before after : List (Worker J))
        → p.workers ≡ before ++ idle ∷ after
        → p.stopped ≡ true
        → Run procs given h p
        → Run procs given (quit ∷ h) (record p { workers = before ++ gone ∷ after })
