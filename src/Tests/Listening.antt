-- ===== src/Tests/Listening.antt =====
-- A broadcast listener, from its start until it rests.
use erie_canal_net.Base.{◌≡◌, ◌≤◌, refl, true, false, List, [], ◌∷◌, arith, nat_eq}
use erie_canal_net.Listener.{
  Listener, Action, update, expire, start_job, retry, end_job, new_listener, on_update, on_expiry,
  on_timer, sliding_timer_reset, after_job, Run, begun, updated, expired, started, retried, ended,
  ctrlplane_first_wait,
}
use erie_canal_net.Listener.Rest.{jobs_since, asked_retry, rest_confirmed}

-- An update, a job that asks for a retry, and the job that confirms
abbrev heard : List Action
heard =
    end_job 26
    ∷ start_job 26
    ∷ expire 25
    ∷ end_job 15
    ∷ retry 14
    ∷ start_job 13
    ∷ expire 12
    ∷ update 7
    ∷ []

abbrev listened : Listener
listened = after_job 26 (
    on_timer (
      on_expiry (
        after_job 15 (
          sliding_timer_reset 14
            (on_timer (on_expiry (on_update 7 (new_listener ctrlplane_first_wait 0))))))))

listened_run : Run true ctrlplane_first_wait 0 heard listened
unfolding new_listener on_update on_expiry on_timer sliding_timer_reset after_job
listened_run = ended 26 refl (
    started 26 refl refl (
      expired 25 25 refl (omega arith) (
        ended 15 refl (
          retried 14 refl refl
            (started 13 refl refl (expired 12 12 refl (omega arith) (updated 7 refl begun)))))))

rest_example : (2 ≤ jobs_since heard) × (asked_retry heard ≡ false)
unfolding new_listener on_update on_expiry on_timer sliding_timer_reset after_job
rest_example = rest_confirmed true ctrlplane_first_wait 0 heard listened listened_run refl refl refl
