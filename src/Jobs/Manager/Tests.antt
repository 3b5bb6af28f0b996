-- ===== src/Jobs/Manager/Tests.antt =====
-- examples/advanced-jobs/main.go: two jobs, of which the first is canceled.
use go_toolbelt.Base.{ℕ, ◌≡◌, refl, true, false, inl, [], ◌∷◌}
use go_toolbelt.Base.Int.{pos}
use go_toolbelt.Base.Ids.{has, without}
use go_toolbelt.Jobs.Manager.{
  JobStatus, running, canceled, Job, set_status, start_job, cancel_job, finish_job, System, init,
  started, signaled, ended, Step, call_start, call_cancel, notices, Steps, here, next,
}
use go_toolbelt.Jobs.Manager.Laws.{status_of, may_turn, job_life_refines}

abbrev pub job : ℕ → JobStatus → Job
job id status = record { id = id; duration = pos 5; status = status }

abbrev pub two_jobs : System
two_jobs = record {
  manager = record {
    next_id = 2;
    jobs = job 2 running ∷ job 1 running ∷ [];
    cancels = 2 ∷ 1 ∷ [];
    active = 2;
  };
  signals = 1 ∷ [];
  parent_done = false;
  runners = 2 ∷ 1 ∷ [];
}

abbrev one_left : System
one_left = record {
  manager = record {
    next_id = 2;
    jobs = job 2 running ∷ job 1 canceled ∷ [];
    cancels = 2 ∷ [];
    active = 1;
  };
  signals = 1 ∷ [];
  parent_done = false;
  runners = 2 ∷ [];
}

pub two_reached : Steps init two_jobs
unfolding start_job started cancel_job signaled has
two_reached = next (next (next here (call_start (pos 5))) (call_start (pos 5))) (call_cancel 1)

first_ends : Step two_jobs one_left
unfolding ended finish_job set_status without has
first_ends = notices 1 refl (inl refl)

job_life_refines_example : may_turn (status_of two_jobs 1) (status_of one_left 1) ≡ true
job_life_refines_example = job_life_refines two_jobs one_left 1 two_reached first_ends
