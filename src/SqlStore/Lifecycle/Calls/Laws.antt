-- ===== src/SqlStore/Lifecycle/Calls/Laws.antt =====
-- sqlite/sqlite.go and postgres/postgres.go: a whole call is a run of the steps of Lifecycle, and
-- what it leaves behind.
use go_toolbelt.Base.{
  ℕ, ◌+◌, ◌≤◌, ◌≡◌, refl, ◌∙◌, ap, subst, true, false, inl, inr, Option, none, some, arith,
  Bool-cases,
}
use go_toolbelt.SqlStore.Connect.{
  Outcomes, connected, connect, open_database, close_after_start_error, settle,
}
use go_toolbelt.SqlStore.Lifecycle.{
  CloseState, Store, StartError, check_closing, begin_start, end_start, begin_stop, end_close,
  end_stop, count_call, count_calls, System, began, opened, settled, closed, call_start, opens,
  settles, call_stop, closes, stopped, AloneReach, later_alone, IsDone,
}
use go_toolbelt.SqlStore.Lifecycle.Laws.{IsValid, AloneReach-IsValid}
use go_toolbelt.SqlStore.Lifecycle.Calls.{
  Failure, failure_of, prepare, go_on, start_store, Wait, closed_first, context_first, run_closing,
  wait_closing, stop_store,
}

-- What a `Start` promises by what it returns.
abbrev pub Started : System → System → Option Failure → Type 0
Started s t none = (s.store.live ≡ false) × (t.store.live ≡ true) × (t.open_dbs ≡ 1)
Started s t (some e) = (t.store.live ≡ s.store.live) × (t.open_dbs ≡ s.open_dbs)

prepare-Reach :
    (o : Outcomes) (s : System) (open_err : Option ℕ)
    → 1 ≤ s.opening
    → AloneReach s
    → AloneReach (prepare o s open_err)
unfolding prepare opened
prepare-Reach o s none h r =
    later_alone (later_alone r (opens none h) tt) (settles o (omega arith)) tt
prepare-Reach o s (some e) h r = later_alone r (opens (some e) h) tt

go_on-Reach :
    (o : Outcomes) (s : System) (p : Store × Option StartError)
    → AloneReach (began s p)
    → AloneReach (go_on o s p).0
unfolding go_on began
go_on-Reach o s (st, none) r = prepare-Reach o (began s (st, none)) o.open_err (omega arith) r
go_on-Reach o s (st, some e) r = r

start_store-Reach :
    (o : Outcomes) (s : System)
    → AloneReach s
    → s.opening + s.holding ≡ 0
    → AloneReach (start_store o s).0
unfolding start_store
start_store-Reach o s r q = go_on-Reach o s (begin_start s.store) (later_alone r call_start q)

start_store-Started :
    (o : Outcomes) (s : System)
    → IsValid s
    → s.opening + s.holding ≡ 0
    → Started s (start_store o s).0 (start_store o s).1
unfolding start_store go_on prepare failure_of connect began opened settled settle
    close_after_start_error open_database count_calls count_call begin_start check_closing end_start
start_store-Started o s v q = ground arith

run_closing-Reach :
    (e : Option ℕ) (s : System) (c : Option CloseState)
    → s.store.closing ≡ c
    → AloneReach s
    → AloneReach (run_closing e s c)
unfolding run_closing
run_closing-Reach e s none p r = r
run_closing-Reach e s (some c) p r = elim (Bool-cases c.done) [
  | inl d ↦ simp (d) r
  | inr d ↦ simp (d) (later_alone r (closes c e p d) tt)
]

run_closing-IsDone :
    (e : Option ℕ) (s : System) (i : ℕ) (c : Option CloseState)
    → s.store.closing ≡ c
    → IsDone i (run_closing e s c).store.closing
unfolding run_closing closed end_close
run_closing-IsDone e s i c p = ground arith

wait_closing-Reach :
    (e : Option ℕ) (w : Wait) (s : System) (i : Option ℕ)
    → AloneReach s
    → AloneReach (wait_closing e w s i).0
unfolding wait_closing
wait_closing-Reach e w s none r = r
wait_closing-Reach e (closed_first x) s (some i) r =
    later_alone (run_closing-Reach e s s.store.closing refl r)
      (stopped i (run_closing-IsDone e s i s.store.closing refl)) tt
wait_closing-Reach e (context_first x) s (some i) r = r

stop_store-Reach :
    (e : Option ℕ) (w : Wait) (s : System) → AloneReach s → AloneReach (stop_store e w s).0
unfolding stop_store
stop_store-Reach e w s r =
    wait_closing-Reach e w (record s { store = (begin_stop s.store).0 }) (begin_stop s.store).1
      (later_alone r call_stop tt)

-- What a `Stop` that waits for the closing leaves behind.
stop_store_leaves :
    (e : Option ℕ) (x : Option ℕ) (s : System)
    → IsValid s
    → s.opening + s.holding ≡ 0
    → ((stop_store e (closed_first x) s).0.store.live ≡ false)
      × ((stop_store e (closed_first x) s).0.store.closing ≡ none)
      × ((stop_store e (closed_first x) s).0.open_dbs ≡ 0)
unfolding stop_store wait_closing run_closing closed begin_stop end_stop end_close count_calls
    count_call
stop_store_leaves e x s v q = ground arith

-- Where no other `Start` is under way, a whole `Start` is a run of the steps of Lifecycle. When it returns nil, the store had no database
-- and now has one, the only one that is open; when it returns an error, of whatever kind, the store
-- has the database it had, or none, and as many are open as before.
pub start_store_all_or_nothing :
    (o : Outcomes) (s : System)
    → AloneReach s
    → s.opening + s.holding ≡ 0
    → AloneReach (start_store o s).0 × Started s (start_store o s).0 (start_store o s).1
start_store_all_or_nothing o s r q =
    (start_store-Reach o s r q, start_store-Started o s (AloneReach-IsValid s r) q)

start_store_settled :
    (o : Outcomes) (s : System)
    → s.store.live ≡ false
    → s.store.closing ≡ none
    → (start_store o s).1 ≡ failure_of (connect o)
unfolding start_store go_on begin_start check_closing
start_store_settled o s l c = ground arith

stop_store_starting :
    (e : Option ℕ) (x : Option ℕ) (s : System)
    → (stop_store e (closed_first x) s).0.opening + (stop_store e (closed_first x) s).0.holding
      ≡ s.opening + s.holding
unfolding stop_store wait_closing run_closing closed begin_stop
stop_store_starting e x s = ground arith

-- Where calls of `Start` do not overlap and none is under way, a `Stop` that is waited for, whatever the closing and the context return, leaves a store with no
-- database open, which a whole `Start` with a database that connects starts: it returns nil, and one
-- database is open.
pub stopped_starts_again :
    (e : Option ℕ) (x : Option ℕ) (o : Outcomes) (s : System)
    → AloneReach s
    → s.opening + s.holding ≡ 0
    → connect o ≡ connected
    → let t = (stop_store e (closed_first x) s).0 in
      let r = start_store o t in
      (t.open_dbs ≡ 0) × (r.1 ≡ none) × (r.0.store.live ≡ true) × (r.0.open_dbs ≡ 1)
unfolding failure_of
stopped_starts_again e x o s r q h =
    let t = (stop_store e (closed_first x) s).0 in
    let (l, c, n) = stop_store_leaves e x s (AloneReach-IsValid s r) q in
    let quiet = stop_store_starting e x s ∙ q in
    let ends = start_store_settled o t l c ∙ ap failure_of h in
    let (_, up, one) =
      subst (λ f. Started t (start_store o t).0 f) ends
        (start_store-Started o t (AloneReach-IsValid t (stop_store-Reach e (closed_first x) s r))
          quiet) in
    (n, ends, up, one)
