-- ===== src/ProcessLock/Tests.antt =====
-- processlock/processlock.go: a lock whose first release is indeterminate.
use go_toolbelt.Base.{◌+◌, ◌≡◌, refl, true, false, List, [], ◌∷◌, none}
use go_toolbelt.ProcessLock.{new, start, stop, Call, starts, stops, perform, perform_all}
use go_toolbelt.ProcessLock.Laws.{acquisitions, definite_releases, bit, lock_balance}

abbrev calls : List Call
calls =
    starts none none
    ∷ starts none none
    ∷ stops (record { released = false; errors = 5 ∷ [] })
    ∷ starts none none
    ∷ stops (record { released = true; errors = [] })
    ∷ starts none none
    ∷ []

two_acquisitions : acquisitions (perform_all calls (new "/run/app.lock" "")).1 ≡ 2
unfolding perform_all perform start stop new
two_acquisitions = refl

lock_balance_example :
    acquisitions (perform_all calls (new "/run/app.lock" "")).1
    ≡ definite_releases (perform_all calls (new "/run/app.lock" "")).1
      + bit (perform_all calls (new "/run/app.lock" "")).0.held
lock_balance_example = lock_balance "/run/app.lock" "" calls
