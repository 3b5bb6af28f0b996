-- ===== src/LocalGateway/Admission/Invariant.antt =====
-- localgateway/admission.go: the invariant of the listener's counters.
use go_toolbelt.Base.{
  ℕ, zero, suc, ◌+◌, ◌<◌, ◌≤◌, ◌≡◌, refl, false, ◌⊎◌, inl, inr, List, [], ◌∷◌, arith,
}
use go_toolbelt.LocalGateway.Admission.{
  AdmissionListener, new_admission_listener, accept_entry, release, accept_exit, close,
  AdmittedConn, close_conn, System, init, entered, left, close_at, Step, call, retry, fail, deliver,
  close_one, shut, Reach, start, later, open_conns,
}

-- `active` counts the slots in use, within the limit. No call is blocked on a closed listener, and
-- where one is blocked, every free slot has a woken call on its way.
pub record IsValid (max : ℕ) (s : System) : Type 0 where
  pub limit : s.listener.max ≡ max
  pub counted : s.listener.active ≡ s.pending + open_conns s.conns
  pub bounded : s.listener.active ≤ max
  pub awake :
      (s.listener.cond.waiting ≡ 0)
      ⊎ ((s.listener.closed ≡ false) × (max ≤ s.listener.active + s.listener.cond.woken))

entered-IsValid :
    (max : ℕ) (s : System) → IsValid max s → IsValid max (entered s (accept_entry s.listener))
unfolding entered accept_entry
entered-IsValid max s v = ground arith

-- Closing a connection again changes nothing; the first time gives its slot back.
pub close_at-cases :
    (i : ℕ) (l : AdmissionListener) (cs : List AdmittedConn)
    → (((close_at i l cs).0 ≡ l) × (open_conns (close_at i l cs).1 ≡ open_conns cs))
      ⊎ (((close_at i l cs).0 ≡ release l) × (open_conns cs ≡ open_conns (close_at i l cs).1 + 1))
unfolding close_at close_conn
close_at-cases i l [] = inl (refl, refl)
close_at-cases zero l (c ∷ cs) = ground arith
close_at-cases (suc i) l (c ∷ cs) = ground (arith, close_at-cases i l cs)

-- A slot that is in use is given back.
release-awake :
    (max : ℕ) (l : AdmissionListener)
    → 0 < l.active
    → (l.cond.waiting ≡ 0) ⊎ ((l.closed ≡ false) × (max ≤ l.active + l.cond.woken))
    → ((release l).cond.waiting ≡ 0)
      ⊎ (((release l).closed ≡ false) × (max ≤ (release l).active + (release l).cond.woken))
unfolding release
release-awake max l h a = ground arith

close_one-IsValid :
    (max i : ℕ) (s : System)
    → IsValid max s
    → IsValid max (record s {
      listener = (close_at i s.listener s.conns).0;
      conns = (close_at i s.listener s.conns).1;
    })
unfolding release
close_one-IsValid max i s v = elim (close_at-cases i s.listener s.conns) [
  | inl (e, n) ↦ ground (arith, e, n)
  | inr (e, n) ↦ ground (arith, e, n)
]

pub Step-IsValid : (max : ℕ) (s t : System) → Step s t → IsValid max s → IsValid max t
unfolding entered accept_entry accept_exit release left close
Step-IsValid max s _ call v = entered-IsValid max s v
Step-IsValid max s _ (retry h) v = ground arith
Step-IsValid max s _ (fail h) v = ground arith
Step-IsValid max s _ (deliver h) v = ground arith
Step-IsValid max s _ (close_one i) v = close_one-IsValid max i s v
Step-IsValid max s _ shut v = ground arith

init-IsValid : (max : ℕ) → IsValid max (init max)
unfolding new_admission_listener
init-IsValid max = ground arith

pub Reach-IsValid : (max : ℕ) (s : System) → Reach max s → IsValid max s
Reach-IsValid max _ start = init-IsValid max
Reach-IsValid max _ (later {s} {t} r st) = Step-IsValid max s t st (Reach-IsValid max s r)
