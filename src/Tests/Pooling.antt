-- ===== src/Tests/Pooling.antt =====
-- A pool of workers that is stopped with a job in its channel.
use erie_canal_net.Base.{ℕ, refl, true, List, [], ◌∷◌, arith, nat_eq}
use erie_canal_net.Workers.{
  gone, Event, add, take, finish, stop, quit, Pool, new_worker_pool, add_job, close_stop, Run,
  created, added, took, ran, closed, returned,
}
use erie_canal_net.Workers.Jobs.{Kept, Run-Kept}

-- One worker runs job 5; job 6 is added as it runs.
abbrev one_job : List (Event ℕ)
one_job = quit ∷ finish 5 ∷ stop ∷ add 6 ∷ take 5 ∷ add 5 ∷ []

abbrev one_left : Pool ℕ
one_left = record {
  n_workers = 1;
  jobs = 6 ∷ [];
  workers = gone ∷ [];
  stopped = true;
  finished = 5 ∷ [];
}

pooled_run : Run 4 1 one_job one_left
unfolding new_worker_pool add_job close_stop
pooled_run = returned [] [] refl refl (
    ran [] [] 5 refl (
      closed refl
        (added 6 (omega arith) (took [] [] 5 [] refl refl (added 5 (omega arith) created)))))

pooling_example : Kept one_job one_left
pooling_example = Run-Kept 4 1 one_job one_left pooled_run
