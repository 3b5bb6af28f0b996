-- ===== src/SqlStore/Lifecycle.antt =====
-- sqlite/sqlite.go and postgres/postgres.go: `Start` and `Stop` of a store. `Start` is two critical
-- sections with the opening of the database and its trial and migrations between them; `Stop` is a
-- critical section, the closing in a goroutine of its own, and a critical section behind that. Each is
-- a step of a system in which any number of goroutines call `Start` and `Stop`. The databases that are
-- open are counted by the calls that open and close one.
pub mod Laws
pub mod Calls
pub mod Tests
use go_toolbelt.Base.{
  ℕ, suc, ◌+◌, ◌-◌, ◌≤◌, ◌≡◌, ◌⊎◌, Bool, true, false, ◌==◌, List, [], ◌∷◌, ◌++◌, Option, none, some,
  if◌then◌else◌,
}
use go_toolbelt.SqlStore.Connect.{
  Outcomes, Connected, connected, not_opened, closed_again, DbCall, open_db, close_db,
  open_database, settle,
}

-- A `closeState`, known by the number of those made before it.
pub record CloseState : Type 0 where
  pub id : ℕ
  pub done : Bool
  pub err : Option ℕ

pub record Store : Type 0 where
  -- `db != nil`
  pub live : Bool
  pub closing : Option CloseState
  pub made : ℕ

abbrev pub new_store : Store
new_store = record { live = false; closing = none; made = 0 }

pub data StartError : Type 0 where
  already_started in_progress : StartError
  previous_failed : ℕ → StartError

pub check_closing : Store → Option CloseState → Store × Option StartError
check_closing s none = (s, none)
check_closing s (some c) =
    if c.done
    then (
      record s { closing = none },
      elim c.err [ none ↦ none | some e ↦ some (previous_failed e) ],
    )
    else (s, some in_progress)

-- The first section of `Start`: without an error it goes on.
pub begin_start : Store → Store × Option StartError
unfolding check_closing
begin_start s = if s.live then (s, some already_started) else check_closing s s.closing

-- The second section.
pub end_start : Store → Store
end_start s = record s { live = true }

-- The first section of `Stop`: the closing to wait for, if there is one.
pub begin_stop : Store → Store × Option ℕ
begin_stop s = elim s.closing [
  | some c ↦ (s, some c.id)
  | none ↦
      if s.live
      then (
        record {
          live = false;
          closing = some (record { id = s.made; done = false; err = none });
          made = suc s.made;
        },
        some s.made,
      )
      else (s, none)
]

-- The goroutine that closes the database. A closing that is not done is the store's own, as only one
-- that is done is cleared.
pub end_close : Option ℕ → CloseState → CloseState × List DbCall
end_close e c = (record c { done = true; err = e }, close_db ∷ [])

-- The second section of `Stop`, behind the closing it waited for.
pub end_stop : ℕ → Store → Store
end_stop i s = elim s.closing [
  | none ↦ s
  | some c ↦ if c.id == i then record s { closing = none } else s
]

-- What `Stop` returns where the closing is done, by its error and the context's.
pub stop_errors : Option ℕ → Option ℕ → List ℕ
stop_errors close_err ctx_err =
    (elim close_err [ none ↦ [] | some e ↦ e ∷ [] ])
    ++ (elim ctx_err [ none ↦ [] | some e ↦ e ∷ [] ])

-- How many databases are open behind some calls.
pub count_call : DbCall → ℕ → ℕ
count_call open_db n = n + 1
count_call close_db n = n - 1

pub count_calls : List DbCall → ℕ → ℕ
unfolding count_call
count_calls [] n = n
count_calls (c ∷ cs) n = count_calls cs (count_call c n)

-- The store; how many calls of `Start` are behind their first section and have not opened a database
-- yet, and how many hold one that they have not installed or closed yet; and how many databases are
-- open.
pub record System : Type 0 where
  pub store : Store
  pub opening : ℕ
  pub holding : ℕ
  pub open_dbs : ℕ

abbrev pub init : System
init = record { store = new_store; opening = 0; holding = 0; open_dbs = 0 }

-- Behind the first section of `Start`.
pub began : System → Store × Option StartError → System
began s (st, none) = record s { store = st; opening = s.opening + 1 }
began s (st, some e) = record s { store = st }

-- Behind the opening of the database, by its error.
pub opened : System → Option ℕ → System
unfolding count_calls
opened s none = record s {
  opening = s.opening - 1;
  holding = s.holding + 1;
  open_dbs = count_calls (open_database none) s.open_dbs;
}
opened s (some e) = record s {
  opening = s.opening - 1;
  open_dbs = count_calls (open_database (some e)) s.open_dbs;
}

-- Behind the second section, or behind the return of an error.
pub settled : System → Connected × List DbCall → System
unfolding end_start count_calls
settled s (connected, calls) = record s {
  store = end_start s.store;
  holding = s.holding - 1;
  open_dbs = count_calls calls s.open_dbs;
}
settled s (not_opened e, calls) = record s {
  holding = s.holding - 1;
  open_dbs = count_calls calls s.open_dbs;
}
settled s (closed_again f e, calls) = record s {
  holding = s.holding - 1;
  open_dbs = count_calls calls s.open_dbs;
}

-- Behind the goroutine that closes.
pub closed : System → CloseState × List DbCall → System
unfolding count_calls
closed s (c, calls) = record s {
  store = record s.store { closing = some c };
  open_dbs = count_calls calls s.open_dbs;
}

-- The closing with a number is done; one that the store has dropped is.
abbrev pub IsDone : ℕ → Option CloseState → Type 0
IsDone i none = Unit {0}
IsDone i (some c) = (c.id == i ≡ false) ⊎ (c.done ≡ true)

pub data Step (s : System) : System → Type 0 where
  call_start : Step s (began s (begin_start s.store))
  opens : (open_err : Option ℕ) → 1 ≤ s.opening → Step s (opened s open_err)
  settles : (o : Outcomes) → 1 ≤ s.holding → Step s (settled s (settle o))
  call_stop : Step s (record s { store = (begin_stop s.store).0 })
  closes :
      (c : CloseState) (e : Option ℕ)
      → s.store.closing ≡ some c
      → c.done ≡ false
      → Step s (closed s (end_close e c))
  stopped : (i : ℕ) → IsDone i s.store.closing → Step s (record s { store = end_stop i s.store })

pub data Reach : System → Type 0 where
  start : Reach init
  later : {s t : System} → Reach s → Step s t → Reach t

-- A `Start` is called while no other is under way.
abbrev pub IsAlone : (s t : System) → Step s t → Type 0
IsAlone s _ call_start = s.opening + s.holding ≡ 0
IsAlone s _ (opens e h) = Unit {0}
IsAlone s _ (settles o h) = Unit {0}
IsAlone s _ call_stop = Unit {0}
IsAlone s _ (closes c e p h) = Unit {0}
IsAlone s _ (stopped i h) = Unit {0}

-- A state that is reached where one goroutine at a time calls `Start`, as the lifecycle of go-app
-- does.
pub data AloneReach : System → Type 0 where
  start_alone : AloneReach init
  later_alone : {s t : System} → AloneReach s → (st : Step s t) → IsAlone s t st → AloneReach t
