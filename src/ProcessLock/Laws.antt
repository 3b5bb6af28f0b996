-- ===== src/ProcessLock/Laws.antt =====
-- processlock/processlock.go: what any sequence of `Start` and `Stop` does.
use go_toolbelt.Base.{ℕ, suc, ◌+◌, ◌≡◌, refl, Bool, true, false, String, List, [], ◌∷◌, ◌++◌, arith}
use go_toolbelt.ProcessLock.{
  Lock, new, Effect, acquires, releases, Call, starts, stops, perform, perform_all,
}

-- How often the lock was acquired, and how often it was released.
abbrev pub acquisitions : List Effect → ℕ
acquisitions [] = 0
acquisitions (acquires ∷ es) = suc (acquisitions es)
acquisitions (releases b ∷ es) = acquisitions es

abbrev pub definite_releases : List Effect → ℕ
definite_releases [] = 0
definite_releases (acquires ∷ es) = definite_releases es
definite_releases (releases true ∷ es) = suc (definite_releases es)
definite_releases (releases false ∷ es) = definite_releases es

acquisitions-append :
    (es fs : List Effect) → acquisitions (es ++ fs) ≡ acquisitions es + acquisitions fs
acquisitions-append [] fs = omega arith
acquisitions-append (acquires ∷ es) fs = omega (arith, acquisitions-append es fs)
acquisitions-append (releases b ∷ es) fs = acquisitions-append es fs

releases-append :
    (es fs : List Effect)
    → definite_releases (es ++ fs) ≡ definite_releases es + definite_releases fs
releases-append [] fs = omega arith
releases-append (acquires ∷ es) fs = releases-append es fs
releases-append (releases true ∷ es) fs = omega (arith, releases-append es fs)
releases-append (releases false ∷ es) fs = releases-append es fs

abbrev pub bit : Bool → ℕ
bit true = 1
bit false = 0

perform-balance :
    (c : Call) (l : Lock)
    → acquisitions (perform c l).1 + bit l.held
      ≡ definite_releases (perform c l).1 + bit (perform c l).0.held
unfolding perform
perform-balance (starts ctx e) l = ground arith
perform-balance (stops r) l = ground arith

perform_all-balance :
    (cs : List Call) (l : Lock)
    → acquisitions (perform_all cs l).1 + bit l.held
      ≡ definite_releases (perform_all cs l).1 + bit (perform_all cs l).0.held
unfolding perform_all
perform_all-balance [] l = refl
perform_all-balance (c ∷ cs) l = omega (
  arith,
  perform-balance c l,
  perform_all-balance cs (perform c l).0,
  acquisitions-append (perform c l).1 (perform_all cs (perform c l).0).1,
  releases-append (perform c l).1 (perform_all cs (perform c l).0).1,
)

-- In the life of a lock, whatever the order of the calls and what they meet, it has been acquired
-- once more than definitely released if it keeps a handle at the end, and equally often if not.
pub lock_balance :
    (path name : String) (cs : List Call)
    → acquisitions (perform_all cs (new path name)).1
      ≡ definite_releases (perform_all cs (new path name)).1
        + bit (perform_all cs (new path name)).0.held
unfolding new
lock_balance path name cs = omega (arith, perform_all-balance cs (new path name))
