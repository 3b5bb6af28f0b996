-- ===== src/Jobs/Manager/Listing/Order.antt =====
-- examples/advanced-jobs/main.go: what `Jobs` returns does not depend on the order in which Go iterates
-- over the map of jobs. The map is a quotient of the lists of its values.
use mathlib.Core.Quot
use mathlib.Core.Quot.{Quot}
use go_toolbelt.Base.{
  ℕ, ◌≤◌, ◌<◌, ◌≡◌, refl, sym, ap, ◌∙◌, leb, List, [], ◌∷◌, none, arith, Bool-cases, inl, inr,
}
use go_toolbelt.Jobs.Manager.{Job, find_job}
use go_toolbelt.Jobs.Manager.Listing.{insert_job, sort_jobs, find_job-sort_jobs}

-- The values of a map: each under its own id, which no other has.
abbrev pub IsMap : List Job → Type 0
IsMap [] = Unit
IsMap (j ∷ js) = (find_job js j.id ≡ none) × IsMap js

-- By strictly ascending ids.
abbrev pub IsAbove : ℕ → List Job → Type 0
IsAbove i [] = Unit
IsAbove i (j ∷ js) = i < j.id

abbrev pub IsAscending : List Job → Type 0
IsAscending [] = Unit
IsAscending (j ∷ js) = IsAbove j.id js × IsAscending js

IsAbove-below : (i n : ℕ) (js : List Job) → i < n → IsAbove n js → IsAbove i js
IsAbove-below i n [] h a = tt
IsAbove-below i n (j ∷ js) h a = omega arith

-- An id below all others is not found.
IsAscending-find_job :
    (i : ℕ) (js : List Job) → IsAbove i js → IsAscending js → find_job js i ≡ none
unfolding find_job
IsAscending-find_job i [] h s = refl
IsAscending-find_job i (j ∷ js) h s =
    ground (arith, IsAscending-find_job i js (IsAbove-below i j.id js h s.0) s.1)

head_le :
    (j k : Job) (js ks : List Job)
    → IsAscending (j ∷ js)
    → ((i : ℕ) → find_job (j ∷ js) i ≡ find_job (k ∷ ks) i)
    → j.id ≤ k.id
unfolding find_job
head_le j k js ks s h = elim (Bool-cases (leb j.id k.id)) [
  | inl e ↦ ground arith
  | inr e ↦
      let p = h k.id in
      let q = IsAscending-find_job k.id (j ∷ js) (ground arith) s in absurd (ground arith)
]

head_same :
    (j k : Job) (js ks : List Job)
    → find_job (j ∷ js) j.id ≡ find_job (k ∷ ks) j.id
    → j.id ≡ k.id
    → j ≡ k
unfolding find_job
head_same j k js ks h e = ground arith

tail_same :
    (i : ℕ) (j k : Job) (js ks : List Job)
    → IsAscending (j ∷ js)
    → IsAscending (k ∷ ks)
    → j.id ≡ k.id
    → find_job (j ∷ js) i ≡ find_job (k ∷ ks) i
    → find_job js i ≡ find_job ks i
unfolding find_job
tail_same i j k js ks s t e h =
    ground (arith, IsAscending-find_job j.id js s.0 s.1, IsAscending-find_job k.id ks t.0 t.1)

-- Two lists in ascending order that find the same are the same.
ascending_unique :
    (js ks : List Job)
    → IsAscending js
    → IsAscending ks
    → ((i : ℕ) → find_job js i ≡ find_job ks i)
    → js ≡ ks
unfolding find_job
ascending_unique [] [] s t h = refl
ascending_unique [] (k ∷ ks) s t h = absurd (let p = h k.id in ground arith)
ascending_unique (j ∷ js) [] s t h = absurd (let p = h j.id in ground arith)
ascending_unique (j ∷ js) (k ∷ ks) s t h =
    let same : j.id ≡ k.id =
      omega (arith, head_le j k js ks s h, head_le k j ks js t (λ i. sym (h i))) in
    let first = head_same j k js ks (h j.id) same in
    let rest = ascending_unique js ks s.1 t.1 (λ i. tail_same i j k js ks s t same (h i)) in
    ap (λ x. x ∷ js) first ∙ ap (λ xs. k ∷ xs) rest

insert_job-IsAbove :
    (i : ℕ) (j : Job) (ks : List Job) → i < j.id → IsAbove i ks → IsAbove i (insert_job j ks)
unfolding insert_job
insert_job-IsAbove i j [] h a = h
insert_job-IsAbove i j (k ∷ ks) h a = elim (Bool-cases (leb j.id k.id)) [
  | inl e ↦ rw e h
  | inr e ↦ rw e a
]

insert_job-IsAscending :
    (j : Job) (ks : List Job)
    → find_job ks j.id ≡ none
    → IsAscending ks
    → IsAscending (insert_job j ks)
unfolding insert_job find_job
insert_job-IsAscending j [] h s = (tt, tt)
insert_job-IsAscending j (k ∷ ks) h s = elim (Bool-cases (leb j.id k.id)) [
  | inl e ↦ rw e (ground arith, s)
  | inr e ↦ rw e (
    insert_job-IsAbove k.id j ks (ground arith) s.0,
    insert_job-IsAscending j ks (ground arith) s.1,
  )
]

pub sort_jobs-IsAscending : (js : List Job) → IsMap js → IsAscending (sort_jobs js)
unfolding sort_jobs
sort_jobs-IsAscending [] m = tt
sort_jobs-IsAscending (j ∷ js) m =
    insert_job-IsAscending j (sort_jobs js) (find_job-sort_jobs j.id js ∙ m.0)
      (sort_jobs-IsAscending js m.1)

-- What `Jobs` returns is given by the jobs that the ids stand for, in whatever order the map is
-- iterated over.
pub sort_jobs_unique :
    (js ks : List Job)
    → IsMap js
    → IsMap ks
    → ((i : ℕ) → find_job js i ≡ find_job ks i)
    → sort_jobs js ≡ sort_jobs ks
sort_jobs_unique js ks m n h =
    ascending_unique (sort_jobs js) (sort_jobs ks) (sort_jobs-IsAscending js m)
      (sort_jobs-IsAscending ks n)
      (λ i. find_job-sort_jobs i js ∙ h i ∙ sym (find_job-sort_jobs i ks))

-- The lists of values that are the same map.
abbrev pub SameMap : List Job → List Job → Type 0
SameMap js ks = IsMap js × IsMap ks × ((i : ℕ) → find_job js i ≡ find_job ks i)

-- A map of jobs, without an order.
abbrev pub JobMap : Type 0
JobMap = Quot SameMap

pub Jobs_set : IsSet (List Job)
Jobs_set = hlevel

-- `Jobs`, on a map.
unfoldable pub list_jobs : JobMap → List Job
list_jobs = Quot.lift Jobs_set sort_jobs (λ js ks h. sort_jobs_unique js ks h.0 h.1 h.2)
