-- ===== src/Jobs/Manager/Listing/Tests.antt =====
-- examples/advanced-jobs/main.go: the map of two jobs, which Go may iterate over from either end.
use mathlib.Core.Quot
use go_toolbelt.Base.{ℕ, ◌≡◌, refl, List, [], ◌∷◌, arith}
use go_toolbelt.Jobs.Manager.{Job, running, find_job}
use go_toolbelt.Jobs.Manager.Tests.{job, two_jobs, two_reached}
use go_toolbelt.Jobs.Manager.Listing.{sort_jobs, insert_job}
use go_toolbelt.Jobs.Manager.Listing.Order.{IsMap, IsAscending, list_jobs}
use go_toolbelt.Jobs.Manager.Listing.Laws.{jobs_listed_alike}

abbrev upwards : List Job
upwards = job 1 running ∷ job 2 running ∷ []

upwards-IsMap : IsMap upwards
unfolding find_job
upwards-IsMap = (refl, (refl, tt))

found_alike : (i : ℕ) → find_job upwards i ≡ find_job two_jobs.manager.jobs i
unfolding find_job
found_alike i = ground arith

jobs_listed_alike_example :
    (sort_jobs upwards ≡ sort_jobs two_jobs.manager.jobs)
    × IsAscending (sort_jobs upwards)
    × ((i : ℕ) → find_job (sort_jobs upwards) i ≡ find_job two_jobs.manager.jobs i)
jobs_listed_alike_example = jobs_listed_alike two_jobs upwards two_reached upwards-IsMap found_alike

listed : list_jobs (Quot.mk two_jobs.manager.jobs) ≡ upwards
unfolding list_jobs sort_jobs insert_job
listed = refl
