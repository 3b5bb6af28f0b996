-- ===== src/Jobs/Manager.antt =====
-- examples/advanced-jobs/main.go: `JobManager`. Its mutex makes each critical section one step of a
-- system in which any number of goroutines call it, and one goroutine runs each job. The times of a
-- job are left out. The map of jobs is a list of them, and that of cancel functions a list of ids.
pub mod Listing
pub mod Laws
pub mod Tests
use go_toolbelt.Base.{
  ℕ, suc, ◌+◌, ◌-◌, ◌≡◌, ◌⊎◌, Bool, true, false, ◌==◌, List, [], ◌∷◌, ◌++◌, Option, none, some,
  if◌then◌else◌,
}
use go_toolbelt.Base.Int.{ℤ}
use go_toolbelt.Base.Ids.{has, without}

pub data JobStatus : Type 0 where
  running completed canceled : JobStatus

-- `duration` stands for its text.
pub record Job : Type 0 where
  pub id : ℕ
  pub duration : ℤ
  pub status : JobStatus

-- What `StartJob` returns of a job. It copies the job behind the unlocking, where the new goroutine
-- may change its status and its end at the same time, so that these are left out.
pub record StartedJob : Type 0 where
  pub id : ℕ
  pub duration : ℤ

pub record JobManager : Type 0 where
  pub next_id : ℕ
  pub jobs : List Job
  pub cancels : List ℕ
  -- the counter of the wait group
  pub active : ℕ

abbrev pub new_job_manager : JobManager
new_job_manager = record { next_id = 0; jobs = []; cancels = []; active = 0 }

pub find_job : List Job → ℕ → Option Job
find_job [] i = none
find_job (j ∷ js) i = let rest = find_job js i in if j.id == i then some j else rest

-- Through the pointer that the map holds.
pub set_status : JobStatus → List Job → ℕ → List Job
set_status st [] i = []
set_status st (j ∷ js) i =
    let rest = set_status st js i in if j.id == i then record j { status = st } ∷ js else j ∷ rest

-- The manager behind the critical section of `StartJob`, and what it returns.
pub start_job : ℤ → JobManager → JobManager × StartedJob
start_job duration m =
    let id = suc m.next_id in
    let job : Job = record { id = id; duration = duration; status = running } in
    (
      record { next_id = id; jobs = job ∷ m.jobs; cancels = id ∷ m.cancels; active = m.active + 1 },
      record { id = id; duration = duration },
    )

-- Whether `CancelJob` finds a cancel function, which it then calls.
pub cancel_job : ℕ → JobManager → Bool
unfolding has
cancel_job i m = has m.cancels i

-- The end of `run`, with the status that its `select` has chosen.
pub finish_job : JobStatus → ℕ → JobManager → JobManager
unfolding set_status without
finish_job st i m = record m {
  jobs = set_status st m.jobs i;
  cancels = without m.cancels i;
  active = m.active - 1;
}

-- The manager, the contexts that were canceled, whether that of the application was, and the jobs
-- whose goroutines have not ended.
pub record System : Type 0 where
  pub manager : JobManager
  pub signals : List ℕ
  pub parent_done : Bool
  pub runners : List ℕ

abbrev pub init : System
init = record { manager = new_job_manager; signals = []; parent_done = false; runners = [] }

-- `StartJob`, with the goroutine that it starts.
pub started : System → JobManager × StartedJob → System
started s (m, job) = record s { manager = m; runners = job.id ∷ s.runners }

-- `CancelJob`, by what it finds.
pub signaled : ℕ → System → Bool → System
signaled i s true = record s { signals = i ∷ s.signals }
signaled i s false = s

pub ended : JobStatus → ℕ → System → System
unfolding finish_job without
ended st i s = record s { manager = finish_job st i s.manager; runners = without s.runners i }

pub data Step (s : System) : System → Type 0 where
  call_start : (duration : ℤ) → Step s (started s (start_job duration s.manager))
  call_cancel : (i : ℕ) → Step s (signaled i s (cancel_job i s.manager))
  -- `Stop` up to its waiting
  call_stop : Step s (record s { signals = s.manager.cancels ++ s.signals })
  parent_ends : Step s (record s { parent_done = true })
  -- the timer of a job, and the end of its context
  expires : (i : ℕ) → has s.runners i ≡ true → Step s (ended completed i s)
  notices :
      (i : ℕ)
      → has s.runners i ≡ true
      → (has s.signals i ≡ true) ⊎ (s.parent_done ≡ true)
      → Step s (ended canceled i s)

pub data Steps (s : System) : System → Type 0 where
  here : Steps s s
  next : {t u : System} → Steps s t → Step t u → Steps s u
