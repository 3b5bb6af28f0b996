-- ===== src/SqlStore/Lifecycle/Laws.antt =====
-- sqlite/sqlite.go and postgres/postgres.go: what holds of a store under every interleaving, and the
-- life it is meant to have.
use go_toolbelt.Base.{
  ℕ, ◌+◌, ◌≤◌, ◌≡◌, ◌==◌, Bool, true, false, not, ◌⊎◌, Option, none, some, arith, if◌then◌else◌,
}
use go_toolbelt.SqlStore.Connect.{open_database, settle, close_after_start_error}
use go_toolbelt.SqlStore.Lifecycle.{
  CloseState, check_closing, begin_start, end_start, begin_stop, end_close, end_stop, count_call,
  count_calls, System, began, opened, settled, closed, Step, call_start, opens, settles, call_stop,
  closes, stopped, Reach, start, later, IsAlone, AloneReach, start_alone, later_alone,
}

-- A closing that is not done holds a database.
abbrev pub unfinished : Option CloseState → ℕ
unfinished none = 0
unfinished (some c) = if c.done then 0 else 1

-- The databases that the store, its closing and the calls of `Start` hold.
abbrev pub held : System → ℕ
held s = (if s.store.live then 1 else 0) + unfinished s.store.closing + s.holding

Step-held : (s t : System) → Step s t → held s ≤ s.open_dbs → held t ≤ t.open_dbs
unfolding begin_start check_closing end_start begin_stop end_close end_stop began opened settled
    closed open_database settle close_after_start_error count_calls count_call
Step-held s _ call_start v = ground arith
Step-held s _ (opens e h) v = ground arith
Step-held s _ (settles o h) v = ground arith
Step-held s _ call_stop v = ground arith
Step-held s _ (closes c e p h) v = ground arith
Step-held s _ (stopped i h) v = ground arith

-- Under every interleaving, calls of `Start` that overlap included, a database that the store, its
-- closing or a `Start` holds is open.
Reach-held : (s : System) → Reach s → held s ≤ s.open_dbs
Reach-held _ start = ground arith
Reach-held _ (later {s} {t} r st) = Step-held s t st (Reach-held s r)

-- Where calls of `Start` do not overlap, the store has a database, or a closing, or a `Start` is under
-- way, and never two of these, and no other database is open.
pub record IsValid (s : System) : Type 0 where
  pub counted : s.open_dbs ≡ held s
  pub apart : (s.store.live ≡ false) ⊎ (s.store.closing ≡ none)
  pub one : s.opening + s.holding ≤ 1
  pub quiet : (s.opening + s.holding ≡ 0) ⊎ ((s.store.live ≡ false) × (s.store.closing ≡ none))

Step-IsValid : (s t : System) (st : Step s t) → IsAlone s t st → IsValid s → IsValid t
unfolding begin_start check_closing end_start begin_stop end_close end_stop began opened settled
    closed open_database settle close_after_start_error count_calls count_call
Step-IsValid s _ call_start a v = ground arith
Step-IsValid s _ (opens e h) a v = ground arith
Step-IsValid s _ (settles o h) a v = ground arith
Step-IsValid s _ call_stop a v = ground arith
Step-IsValid s _ (closes c e p h) a v = ground arith
Step-IsValid s _ (stopped i h) a v = ground arith

pub AloneReach-IsValid : (s : System) → AloneReach s → IsValid s
AloneReach-IsValid _ start_alone = ground arith
AloneReach-IsValid _ (later_alone {s} {t} r st a) = Step-IsValid s t st a (AloneReach-IsValid s r)

-- The life that a store is meant to have.
pub data Phase : Type 0 where
  stopped_store opening_store trying_store running_store closing_store closed_store : Phase

abbrev pub phase_of : Bool → ℕ → ℕ → Option CloseState → Phase
phase_of true opening holding closing = running_store
phase_of false opening holding (some c) = if c.done then closed_store else closing_store
phase_of false opening holding none =
    if not (holding == 0)
    then trying_store
    else if not (opening == 0)
    then opening_store
    else stopped_store

abbrev pub phase : System → Phase
phase s = phase_of s.store.live s.opening s.holding s.store.closing

-- A `Start` opens a database, tries and migrates it, and installs it or closes it again. A closing
-- that is done is collected by the `Stop` that waited for it, or by the next `Start`.
abbrev pub may_become : Phase → Phase → Bool
may_become stopped_store stopped_store = true
may_become stopped_store opening_store = true
may_become opening_store opening_store = true
may_become opening_store trying_store = true
may_become opening_store stopped_store = true
may_become trying_store trying_store = true
may_become trying_store running_store = true
may_become trying_store stopped_store = true
may_become running_store running_store = true
may_become running_store closing_store = true
may_become closing_store closing_store = true
may_become closing_store closed_store = true
may_become closed_store closed_store = true
may_become closed_store stopped_store = true
may_become closed_store opening_store = true
may_become _ _ = false

abbrev pub dbs_in : Phase → ℕ
dbs_in trying_store = 1
dbs_in running_store = 1
dbs_in closing_store = 1
dbs_in _ = 0

Step-may_become :
    (s t : System) (st : Step s t)
    → IsAlone s t st
    → IsValid s
    → may_become (phase s) (phase t) ≡ true
unfolding begin_start check_closing end_start begin_stop end_close end_stop began opened settled
    closed settle close_after_start_error
Step-may_become s _ call_start a v = ground arith
Step-may_become s _ (opens e h) a v = ground arith
Step-may_become s _ (settles o h) a v = ground arith
Step-may_become s _ call_stop a v = ground arith
Step-may_become s _ (closes c e p h) a v = ground arith
Step-may_become s _ (stopped i h) a v = ground arith

IsValid-dbs_in : (s : System) → IsValid s → s.open_dbs ≡ dbs_in (phase s)
IsValid-dbs_in s v = ground arith

-- Where one goroutine at a time calls `Start`, and any number call `Stop`, every step of a reachable
-- store is a move of the life that it is meant to have, and the number of open databases is that of
-- the phase: one while a `Start` tries and migrates it, while the store runs and while it closes, and
-- none otherwise. So no database is lost, and never are two open.
pub lifecycle_refines :
    (s t : System)
    → AloneReach s
    → (st : Step s t) → IsAlone s t st
    → (may_become (phase s) (phase t) ≡ true)
      × (s.open_dbs ≡ dbs_in (phase s))
      × (t.open_dbs ≡ dbs_in (phase t))
lifecycle_refines s t r st a =
    let v = AloneReach-IsValid s r in
    (Step-may_become s t st a v, IsValid-dbs_in s v, IsValid-dbs_in t (Step-IsValid s t st a v))
