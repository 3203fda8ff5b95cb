-- ===== src/Workers/Jobs.antt =====
-- What becomes of the jobs of the pool of pkg/ecnet/workerpool.
use erie_canal_net.Base.{
  ℕ, ◌≤◌, ◌≡◌, refl, sym, ap, ◌∙◌, subst, nat_eq, ◌==◌, List, [], ◌∷◌, ◌++◌, length, arith,
  if◌then◌else◌, All, append_assoc, Permᴰ, suc, zero,
}
use mathlib.Core.List.Permᴰ as PermD
use erie_canal_net.Workers.{
  Worker, idle, busy, gone, Event, add, take, finish, stop, quit, Pool, replicate, new_worker_pool,
  add_job, close_stop, Run, created, added, took, ran, closed, returned,
}

module _ {J : Type 0} where
  -- The jobs that were added and those that were taken, oldest first
  abbrev pub added_jobs : List (Event J) → List J
  added_jobs [] = []
  added_jobs (add j ∷ h) = added_jobs h ++ j ∷ []
  added_jobs (take j ∷ h) = added_jobs h
  added_jobs (finish j ∷ h) = added_jobs h
  added_jobs (stop ∷ h) = added_jobs h
  added_jobs (quit ∷ h) = added_jobs h

  abbrev pub taken_jobs : List (Event J) → List J
  taken_jobs [] = []
  taken_jobs (add j ∷ h) = taken_jobs h
  taken_jobs (take j ∷ h) = taken_jobs h ++ j ∷ []
  taken_jobs (finish j ∷ h) = taken_jobs h
  taken_jobs (stop ∷ h) = taken_jobs h
  taken_jobs (quit ∷ h) = taken_jobs h

  -- The jobs that workers run
  abbrev pub running : List (Worker J) → List J
  running [] = []
  running (idle ∷ ws) = running ws
  running (gone ∷ ws) = running ws
  running (busy j ∷ ws) = j ∷ running ws

  running-append : (xs ys : List (Worker J)) → running (xs ++ ys) ≡ running xs ++ running ys
  running-append [] ys = refl
  running-append (idle ∷ xs) ys = running-append xs ys
  running-append (gone ∷ xs) ys = running-append xs ys
  running-append (busy j ∷ xs) ys = ap (λ js. j ∷ js) (running-append xs ys)

  running-replicate : (n : ℕ) → running (replicate n idle) ≡ []
  running-replicate zero = refl
  running-replicate (suc n) = running-replicate n

  length-replicate : (w : Worker J) (n : ℕ) → length (replicate n w) ≡ n
  length-replicate w zero = refl
  length-replicate w (suc n) = ground (arith, length-replicate w n)

  running-length : (ws : List (Worker J)) → length (running ws) ≤ length ws
  running-length [] = omega arith
  running-length (idle ∷ ws) = ground (arith, running-length ws)
  running-length (gone ∷ ws) = ground (arith, running-length ws)
  running-length (busy j ∷ ws) = ground (arith, running-length ws)

  length-middle :
      (xs ys : List (Worker J)) (v w : Worker J) → length (xs ++ v ∷ ys) ≡ length (xs ++ w ∷ ys)
  length-middle [] ys v w = refl
  length-middle (x ∷ xs) ys v w = ground (arith, length-middle xs ys v w)

  length-snoc : (xs : List J) (j : J) → length (xs ++ j ∷ []) ≡ suc (length xs)
  length-snoc [] j = refl
  length-snoc (x ∷ xs) j = ground (arith, length-snoc xs j)

  -- A pool that keeps its jobs: the channel holds at most as many as there are workers, jobs are taken in
  -- the order in which they were added, and one that was taken is run or finished.
  pub record Kept (h : List (Event J)) (p : Pool J) : Type 0 where
    pub room : length p.jobs ≤ p.n_workers
    pub all_workers : length p.workers ≡ p.n_workers
    pub in_order : added_jobs h ≡ taken_jobs h ++ p.jobs
    pub taken : Permᴰ (running p.workers ++ p.finished) (taken_jobs h)

  -- A job that is run comes before the rest.
  busy-first :
      (xs ys : List (Worker J)) (j : J) (fs : List J)
      → Permᴰ (running (xs ++ busy j ∷ ys) ++ fs) (j ∷ running (xs ++ idle ∷ ys) ++ fs)
  busy-first xs ys j fs =
      subst (λ js. Permᴰ (js ++ fs) (j ∷ running (xs ++ idle ∷ ys) ++ fs))
        (sym (running-append xs (busy j ∷ ys)))
        (subst (λ js. Permᴰ ((running xs ++ j ∷ running ys) ++ fs) (j ∷ js ++ fs))
          (sym (running-append xs (idle ∷ ys)))
          (PermD.append_right fs (PermD.middle j (running xs) (running ys))))

  took-Permᴰ :
      (xs ys : List (Worker J)) (j : J) (fs ts : List J)
      → Permᴰ (running (xs ++ idle ∷ ys) ++ fs) ts
      → Permᴰ (running (xs ++ busy j ∷ ys) ++ fs) (ts ++ j ∷ [])
  took-Permᴰ xs ys j fs ts h =
      Permᴰ.trans (busy-first xs ys j fs)
        (Permᴰ.trans (Permᴰ.cons refl h) (PermD.append_comm (j ∷ []) ts))

  ran-Permᴰ :
      (xs ys : List (Worker J)) (j : J) (fs ts : List J)
      → Permᴰ (running (xs ++ busy j ∷ ys) ++ fs) ts
      → Permᴰ (running (xs ++ idle ∷ ys) ++ j ∷ fs) ts
  ran-Permᴰ xs ys j fs ts h =
      Permᴰ.trans (PermD.middle j (running (xs ++ idle ∷ ys)) fs)
        (Permᴰ.trans (PermD.symm (busy-first xs ys j fs)) h)

  quit-Permᴰ :
      (xs ys : List (Worker J)) (fs ts : List J)
      → Permᴰ (running (xs ++ idle ∷ ys) ++ fs) ts
      → Permᴰ (running (xs ++ gone ∷ ys) ++ fs) ts
  quit-Permᴰ xs ys fs ts h =
      subst (λ js. Permᴰ (js ++ fs) ts)
        (running-append xs (idle ∷ ys) ∙ sym (running-append xs (gone ∷ ys))) h

  -- From its start on, the pool holds at most as many jobs in its channel as it has workers, takes the
  -- jobs in the order in which they were added, and each job that was taken is either run by a worker or
  -- finished, and so once.
  pub Run-Kept :
      (procs given : ℕ) (h : List (Event J)) (p : Pool J) → Run procs given h p → Kept h p
  unfolding new_worker_pool add_job close_stop
  Run-Kept procs given [] p created = record {
    room = omega arith;
    all_workers = length-replicate idle (if given == 0 then procs else given);
    in_order = refl;
    taken = rw (running-replicate (if given == 0 then procs else given)) Permᴰ.nil;
  }
  Run-Kept procs given (_ ∷ h) _ (added {p} j lt r) =
      let k = Run-Kept procs given h p r in
      record {
        room = ground (arith, lt, length-snoc p.jobs j);
        all_workers = k.all_workers;
        in_order = ap (λ js. js ++ j ∷ []) k.in_order ∙ append_assoc (taken_jobs h) p.jobs (j ∷ []);
        taken = k.taken;
      }
  Run-Kept procs given (_ ∷ h) _ (took {p} xs ys j js ws queue r) =
      let k = Run-Kept procs given h p r in
      record {
        room = ground (arith, k.room, queue);
        all_workers = length-middle xs ys (busy j) idle ∙ ap length (sym ws) ∙ k.all_workers;
        in_order =
            k.in_order
            ∙ ap (λ q. taken_jobs h ++ q) queue
            ∙ sym (append_assoc (taken_jobs h) (j ∷ []) js);
        taken =
            took-Permᴰ xs ys j p.finished (taken_jobs h)
              (subst (λ v. Permᴰ (running v ++ p.finished) (taken_jobs h)) ws k.taken);
      }
  Run-Kept procs given (_ ∷ h) _ (ran {p} xs ys j ws r) =
      let k = Run-Kept procs given h p r in
      record {
        room = k.room;
        all_workers = length-middle xs ys idle (busy j) ∙ ap length (sym ws) ∙ k.all_workers;
        in_order = k.in_order;
        taken =
            ran-Permᴰ xs ys j p.finished (taken_jobs h)
              (subst (λ v. Permᴰ (running v ++ p.finished) (taken_jobs h)) ws k.taken);
      }
  Run-Kept procs given (_ ∷ h) _ (closed {p} going r) =
      let k = Run-Kept procs given h p r in
      record { room = k.room; all_workers = k.all_workers; in_order = k.in_order; taken = k.taken }
  Run-Kept procs given (_ ∷ h) _ (returned {p} xs ys ws stopped r) =
      let k = Run-Kept procs given h p r in
      record {
        room = k.room;
        all_workers = length-middle xs ys gone idle ∙ ap length (sym ws) ∙ k.all_workers;
        in_order = k.in_order;
        taken =
            quit-Permᴰ xs ys p.finished (taken_jobs h)
              (subst (λ v. Permᴰ (running v ++ p.finished) (taken_jobs h)) ws k.taken);
      }

  All-running : (ws : List (Worker J)) → All (λ w. w ≡ gone) ws → running ws ≡ []
  All-running [] h = refl
  All-running (w ∷ ws) h = subst (λ v. running (v ∷ ws) ≡ []) (sym h.0) (All-running ws h.1)

  -- When `Stop` returns, since all workers have returned, every job that was taken has finished, and the
  -- jobs that were added are those and, after them, the ones that are left in the channel.
  pub stop_finishes :
      (procs given : ℕ) (h : List (Event J)) (p : Pool J)
      → Run procs given h p
      → All (λ w. w ≡ gone) p.workers
      → Permᴰ p.finished (taken_jobs h) × (added_jobs h ≡ taken_jobs h ++ p.jobs)
  stop_finishes procs given h p r all =
      let k = Run-Kept procs given h p r in
      (
        subst (λ js. Permᴰ (js ++ p.finished) (taken_jobs h)) (All-running p.workers all) k.taken,
        k.in_order,
      )
