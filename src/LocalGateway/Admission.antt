-- ===== src/LocalGateway/Admission.antt =====
-- localgateway/admission.go. `Accept` is two critical sections with the inner listener's `Accept`
-- between them; each section, `Close`, `release` and `admittedConn.Close` is one step of a system
-- in which any number of goroutines call them. `active` counts down on ℕ: the invariant shows that
-- it is positive wherever that happens.
mod Invariant
pub mod Laws
pub mod Tests
use go_toolbelt.Base.{
  ℕ, zero, suc, ◌+◌, ◌-◌, ◌<◌, Bool, true, false, not, ◌&&◌, List, [], ◌∷◌, leb, if◌then◌else◌,
}
use go_toolbelt.LocalGateway.Cond.{Cond, no_waiters, wait, signal, broadcast, resume}

pub record AdmissionListener : Type 0 where
  pub max : ℕ
  pub active : ℕ
  pub closed : Bool
  pub cond : Cond

pub new_admission_listener : ℕ → AdmissionListener
new_admission_listener max = record { max = max; active = 0; closed = false; cond = no_waiters }

-- How the first critical section of `Accept` ends: in `cond.Wait`, with `net.ErrClosed`, or with a
-- slot taken.
pub data Entry : Type 0 where
  blocked refused admitted : AdmissionListener → Entry

-- From the mutex being taken, at the start or behind `Wait`, to its release.
pub accept_entry : AdmissionListener → Entry
accept_entry l =
    if leb l.max l.active && not l.closed
    then blocked (record l { cond = wait l.cond })
    else if l.closed
    then refused l
    else admitted (record l { active = l.active + 1 })

pub release : AdmissionListener → AdmissionListener
release l = record l { active = l.active - 1; cond = signal l.cond }

-- The second critical section, the inner `Accept` having returned a connection: whether the caller
-- gets it.
pub accept_exit : AdmissionListener → AdmissionListener × Bool
accept_exit l =
    if l.closed
    then (record l { active = l.active - 1; cond = signal l.cond }, false)
    else (l, true)

pub close : AdmissionListener → AdmissionListener
close l = if not l.closed then record l { closed = true; cond = broadcast l.cond } else l

-- `admittedConn`, by whether its `once` is done.
pub record AdmittedConn : Type 0 where
  pub released : Bool

pub close_conn : AdmissionListener → AdmittedConn → AdmissionListener × AdmittedConn
unfolding release
close_conn l c = if c.released then (l, c) else (release l, record { released = true })

-- The listener, the calls of `Accept` between their two sections, and the connections handed out.
pub record System : Type 0 where
  pub listener : AdmissionListener
  pub pending : ℕ
  pub conns : List AdmittedConn

abbrev pub init : ℕ → System
init max = record { listener = new_admission_listener max; pending = 0; conns = [] }

-- A call behind its first section.
pub entered : System → Entry → System
entered s (blocked l) = record s { listener = l }
entered s (refused l) = record s { listener = l }
entered s (admitted l) = record s { listener = l; pending = s.pending + 1 }

abbrev pub fresh_conn : AdmittedConn
fresh_conn = record { released = false }

-- A call behind its second section.
pub left : System → AdmissionListener × Bool → System
left s (l, true) = record s { listener = l; pending = s.pending - 1; conns = fresh_conn ∷ s.conns }
left s (l, false) = record s { listener = l; pending = s.pending - 1 }

-- `Close` of the connection at an index; an index out of range names none.
pub close_at : ℕ → AdmissionListener → List AdmittedConn → AdmissionListener × List AdmittedConn
close_at i l [] = (l, [])
close_at zero l (c ∷ cs) = let (l', c') = close_conn l c in (l', c' ∷ cs)
close_at (suc i) l (c ∷ cs) = let (l', cs') = close_at i l cs in (l', c ∷ cs')

pub data Step (s : System) : System → Type 0 where
  -- A goroutine calls `Accept`.
  call : Step s (entered s (accept_entry s.listener))
  -- A goroutine that was woken has the mutex, and tests again.
  retry :
      0 < s.listener.cond.woken
      → Step s (entered s (accept_entry (record s.listener { cond = resume s.listener.cond })))
  -- The inner `Accept` fails.
  fail :
      0 < s.pending → Step s (record s { listener = release s.listener; pending = s.pending - 1 })
  -- The inner `Accept` returns a connection.
  deliver : 0 < s.pending → Step s (left s (accept_exit s.listener))
  close_one :
      (i : ℕ)
      → Step s (record s {
        listener = (close_at i s.listener s.conns).0;
        conns = (close_at i s.listener s.conns).1;
      })
  shut : Step s (record s { listener = close s.listener })

pub data Reach (max : ℕ) : System → Type 0 where
  start : Reach max (init max)
  later : {s t : System} → Reach max s → Step s t → Reach max t

-- The connections in the callers' hands that are not closed.
abbrev pub open_conns : List AdmittedConn → ℕ
open_conns [] = 0
open_conns (c ∷ cs) = (if c.released then 0 else 1) + open_conns cs
