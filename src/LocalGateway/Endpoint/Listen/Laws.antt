-- ===== src/LocalGateway/Endpoint/Listen/Laws.antt =====
-- localgateway/endpoint_unix.go: what holds of a socket that listens, and of a peer.
use go_toolbelt.Base.{
  ℕ, ◌≡◌, ◌≢◌, refl, sym, ap, ◌∙◌, true, false, not, List, [], ◌∷◌, Option, none, some, arith,
  Bool-cases, inl, inr,
}
use go_toolbelt.Base.Result.{Result, ok, err, refuse_if, then-eq-ok, Result-cases}
use go_toolbelt.LocalGateway.Endpoint.{
  Identity, validate_endpoint_parent, validate_socket, socket_identity, IsPrivateSocket,
  validate_socket-private,
}
use go_toolbelt.LocalGateway.Endpoint.Listen.{
  is_user, peer_allowed, is_allowed, accept, in_context, nil_or, prepare, protect, listen_end,
  listen_prepared, listen_local, PeerCalls, AcceptEnd, ListenError, ListenCalls, Trace,
  accept_failed, accepted, returned, not_absolute, bad_parent, bad_socket, bad_identity,
  bad_existing, listen_failed, not_protected, no_unix_listener, listening,
}

-- The peer has shown that it belongs to the user.
abbrev pub IsUser : ℕ → PeerCalls → Type 0
IsUser euid c =
    (c.is_unix ≡ true)
    × (c.syscall_err ≡ none)
    × (c.control_err ≡ none)
    × (c.credential ≡ ok (some euid))

is_user-eq :
    (euid : ℕ) (r : Result ℕ (Option ℕ)) → is_allowed (is_user euid r) ≡ true → r ≡ ok (some euid)
unfolding is_user
is_user-eq euid (err e) h = absurd cc
is_user-eq euid (ok none) h = absurd cc
is_user-eq euid (ok (some uid)) h = ap (λ u. ok (some u)) (ground arith)

peer_allowed-IsUser :
    (euid : ℕ) (c : PeerCalls) → is_allowed (peer_allowed euid c) ≡ true → IsUser euid c
unfolding peer_allowed
peer_allowed-IsUser euid c h = ground (arith, is_user-eq euid c.credential)

-- The connections that stand before one in the rounds.
abbrev pub ClosedBefore : ℕ → ℕ → List AcceptEnd → List ℕ → Type 0
ClosedBefore euid conn [] closed = ⊥
ClosedBefore euid conn (accept_failed e ∷ rest) closed = ⊥
ClosedBefore euid conn (accepted other peer ∷ rest) [] = other ≡ conn
ClosedBefore euid conn (accepted other peer ∷ rest) (k ∷ closed) =
    (k ≡ other) × (is_allowed (peer_allowed euid peer) ≡ false) × ClosedBefore euid conn rest closed

-- A connection that `Accept` returns comes from a process of the user, by the credentials that the
-- system gives of it; all that came before it did not, and they are what `Accept` has closed.
accept_checks_peer :
    (euid : ℕ) (rounds : List AcceptEnd) (conn : ℕ) (peer : PeerCalls)
    → (accept euid rounds).0 ≡ returned conn peer
    → IsUser euid peer × ClosedBefore euid conn rounds (accept euid rounds).1
unfolding accept
accept_checks_peer euid [] conn peer h = absurd cc
accept_checks_peer euid (accept_failed e ∷ rest) conn peer h = absurd cc
accept_checks_peer euid (accepted other p ∷ rest) conn peer h =
    elim (Bool-cases (is_allowed (peer_allowed euid p))) [
      | inl e ↦
          let g : returned other p ≡ returned conn peer = rw (e, accept) at h in
          let same : other ≡ conn = cc in
          let alike : p ≡ peer = cc in
          rw (e, accept)
            (
              peer_allowed-IsUser euid peer
                  (ap (λ x. is_allowed (peer_allowed euid x)) (sym alike) ∙ e),
              same,
            )
      | inr e ↦
          let g = accept_checks_peer euid rest conn peer (rw (e, accept) at h) in
          rw (e, accept) (g.0, (refl, e, g.1))
    ]

in_context-ok :
    {E F A : Type 0} (f : E → F) (r : Result E A) (a : A) → in_context f r ≡ ok a → r ≡ ok a
in_context-ok f (ok x) a e = cc
in_context-ok f (err x) a e = absurd cc

prepare-ok :
    (euid : ℕ) (c : ListenCalls)
    → prepare euid c ≡ ok tt
    → (validate_endpoint_parent euid c.parent ≡ ok tt) × (c.stale ≡ ok tt)
unfolding prepare
prepare-ok euid c h =
    let (p₁, h₁) = then-eq-ok (refuse_if (not c.is_abs) not_absolute) _ h in
    let (p₂, h₂) =
      then-eq-ok (in_context bad_parent (validate_endpoint_parent euid c.parent)) _ h₁ in
    let (p₃, h₃) =
      then-eq-ok (in_context bad_existing c.stale) (nil_or listen_failed c.listen_err) h₂ in
    (
      in_context-ok bad_parent (validate_endpoint_parent euid c.parent) tt p₂,
      in_context-ok bad_existing c.stale tt p₃,
    )

protect-ok :
    (euid : ℕ) (c : ListenCalls) (i : Identity)
    → protect euid c ≡ ok i
    → IsPrivateSocket euid c.validated × (socket_identity c.identified ≡ ok i)
unfolding protect
protect-ok euid c i h =
    let (p₁, h₁) = then-eq-ok (refuse_if (not c.is_unix_listener) no_unix_listener) _ h in
    let (p₂, h₂) = then-eq-ok (nil_or not_protected c.chmod_err) _ h₁ in
    let (p₃, h₃) =
      then-eq-ok (in_context bad_socket (validate_socket euid c.validated))
        (in_context bad_identity (socket_identity c.identified)) h₂ in
    (
      validate_socket-private euid c.validated
          (in_context-ok bad_socket (validate_socket euid c.validated) tt p₃),
      in_context-ok bad_identity (socket_identity c.identified) i h₃,
    )

-- What a result of `listenLocal` promises.
abbrev pub IsProtected : ℕ → ListenCalls → Result ListenError Identity → Trace → Type 0
IsProtected euid c (err e) t = t ≢ listening
IsProtected euid c (ok i) t =
    (t ≡ listening)
    × (validate_endpoint_parent euid c.parent ≡ ok tt)
    × (c.stale ≡ ok tt)
    × IsPrivateSocket euid c.validated
    × (socket_identity c.identified ≡ ok i)

listen_end-IsProtected :
    (euid : ℕ) (c : ListenCalls) (r : Result ListenError Identity)
    → prepare euid c ≡ ok tt
    → protect euid c ≡ r
    → IsProtected euid c (listen_end r).0 (listen_end r).1
unfolding listen_end
listen_end-IsProtected euid c (err e) p q = λ h. cc
listen_end-IsProtected euid c (ok i) p q =
    let (parent, stale) = prepare-ok euid c p in
    let (private_socket, same) = protect-ok euid c i q in
    (refl, parent, stale, private_socket, same)

-- When `listenLocal` succeeds, the directory passed its check, what was left from before is gone, the
-- socket is private to the user, and the cleanup is bound to the socket's identity; when it fails,
-- nothing listens: there was no listener, or it was closed and the removal of its socket called.
listen_local-IsProtected :
    (euid : ℕ) (c : ListenCalls)
    → IsProtected euid c (listen_local euid c).0 (listen_local euid c).1
unfolding listen_local listen_prepared
listen_local-IsProtected euid c = elim (Result-cases (prepare euid c)) [
  | inl (u, p) ↦ rw p (listen_end-IsProtected euid c (protect euid c) p refl)
  | inr (e, p) ↦ rw p (λ h. cc)
]
