-- ===== src/Jobs/Manager/Listing.antt =====
-- examples/advanced-jobs/main.go: `Jobs`, which sorts the values of the map by their ids. The list
-- of the map's values stands in any order in which Go may iterate over it.
mod Order
mod Laws
mod Tests
use go_toolbelt.Base.{
  ℕ, ◌≤◌, ◌≡◌, refl, ◌∙◌, leb, List, [], ◌∷◌, length, if◌then◌else◌, arith, Bool-cases, inl, inr,
}
use go_toolbelt.Jobs.Manager.{Job, find_job}

pub insert_job : Job → List Job → List Job
insert_job j [] = j ∷ []
insert_job j (k ∷ ks) = let rest = insert_job j ks in if leb j.id k.id then j ∷ k ∷ ks else k ∷ rest

-- `sort.Slice` by the ids
pub sort_jobs : List Job → List Job
unfolding insert_job
sort_jobs [] = []
sort_jobs (j ∷ js) = insert_job j (sort_jobs js)

abbrev pub IsBelow : ℕ → List Job → Type 0
IsBelow i [] = Unit
IsBelow i (j ∷ js) = i ≤ j.id

abbrev pub IsSorted : List Job → Type 0
IsSorted [] = Unit
IsSorted (j ∷ js) = IsBelow j.id js × IsSorted js

insert_job-IsBelow :
    (i : ℕ) (j : Job) (ks : List Job) → i ≤ j.id → IsBelow i ks → IsBelow i (insert_job j ks)
unfolding insert_job
insert_job-IsBelow i j [] h b = h
insert_job-IsBelow i j (k ∷ ks) h b = elim (Bool-cases (leb j.id k.id)) [
  | inl e ↦ rw e h
  | inr e ↦ rw e b
]

insert_job-IsSorted : (j : Job) (ks : List Job) → IsSorted ks → IsSorted (insert_job j ks)
unfolding insert_job
insert_job-IsSorted j [] s = (tt, tt)
insert_job-IsSorted j (k ∷ ks) s = elim (Bool-cases (leb j.id k.id)) [
  | inl e ↦ rw e (ground arith, s)
  | inr e ↦ rw e (insert_job-IsBelow k.id j ks (ground arith) s.0, insert_job-IsSorted j ks s.1)
]

find_job-insert_job :
    (i : ℕ) (j : Job) (ks : List Job) → find_job (insert_job j ks) i ≡ find_job (j ∷ ks) i
unfolding insert_job find_job
find_job-insert_job i j [] = refl
find_job-insert_job i j (k ∷ ks) = ground (arith, find_job-insert_job i j ks)

length-insert_job : (j : Job) (ks : List Job) → length (insert_job j ks) ≡ length (j ∷ ks)
unfolding insert_job
length-insert_job j [] = refl
length-insert_job j (k ∷ ks) = ground (arith, length-insert_job j ks)

sort_jobs-IsSorted : (js : List Job) → IsSorted (sort_jobs js)
unfolding sort_jobs
sort_jobs-IsSorted [] = tt
sort_jobs-IsSorted (j ∷ js) = insert_job-IsSorted j (sort_jobs js) (sort_jobs-IsSorted js)

find_job-sort_jobs : (i : ℕ) (js : List Job) → find_job (sort_jobs js) i ≡ find_job js i
unfolding sort_jobs find_job
find_job-sort_jobs i [] = refl
find_job-sort_jobs i (j ∷ js) =
    find_job-insert_job i j (sort_jobs js) ∙ ground (arith, find_job-sort_jobs i js)

length-sort_jobs : (js : List Job) → length (sort_jobs js) ≡ length js
unfolding sort_jobs
length-sort_jobs [] = refl
length-sort_jobs (j ∷ js) = ground (arith, length-insert_job j (sort_jobs js), length-sort_jobs js)

-- `Jobs` lists the jobs by ascending ids, as many as the manager has, and each id stands for the same
-- job as in the manager.
sort_jobs_lists_all :
    (js : List Job)
    → IsSorted (sort_jobs js)
      × (length (sort_jobs js) ≡ length js)
      × ((i : ℕ) → find_job (sort_jobs js) i ≡ find_job js i)
sort_jobs_lists_all js = (sort_jobs-IsSorted js, length-sort_jobs js, λ i. find_job-sort_jobs i js)
