-- ===== src/LocalGateway/Endpoint/Listen.antt =====
-- localgateway/endpoint_unix.go: `listenLocal`, `dialLocal` and `peerListener.Accept`, with
-- `peerAllowed` of localgateway/peer_linux.go. What the system calls return is an argument.
pub mod Laws
mod Tests
use go_toolbelt.Base.{ℕ, Bool, false, not, ◌==◌, List, [], ◌∷◌, Option, none, some, if◌then◌else◌}
use go_toolbelt.Base.Result.{Result, ok, err, ◌>>◌, refuse_if}
use go_toolbelt.LocalGateway.Endpoint.{
  FileInfo, LstatEnd, EndpointError, Identity, validate_endpoint_parent, validate_socket,
  socket_identity,
}
use go_toolbelt.LocalGateway.Endpoint.Removal.{StaleError}

-- What `peerAllowed` meets: the type of the connection, and the calls for its credentials, of which
-- there may be none.
pub record PeerCalls : Type 0 where
  pub is_unix : Bool
  pub syscall_err : Option ℕ
  pub control_err : Option ℕ
  pub credential : Result ℕ (Option ℕ)

pub data PeerError : Type 0 where
  unexpected_type : PeerError
  peer_failed : ℕ → PeerError

pub is_user : ℕ → Result ℕ (Option ℕ) → Result PeerError Bool
is_user euid (err e) = err (peer_failed e)
is_user euid (ok none) = ok false
is_user euid (ok (some uid)) = ok (uid == euid)

pub peer_allowed : ℕ → PeerCalls → Result PeerError Bool
unfolding is_user
peer_allowed euid c = if not c.is_unix then err unexpected_type else elim c.syscall_err [
  | some e ↦ err (peer_failed e)
  | none ↦ elim c.control_err [ some e ↦ err (peer_failed e) | none ↦ is_user euid c.credential ]
]

-- One `Accept` of the inner listener: an error, or a connection with a number.
pub data AcceptEnd : Type 0 where
  accept_failed : ℕ → AcceptEnd
  accepted : ℕ → PeerCalls → AcceptEnd

abbrev pub is_allowed : Result PeerError Bool → Bool
is_allowed (ok b) = b
is_allowed (err e) = false

-- What the loop returns: an error or a connection, or, where the list of rounds is at its end, that
-- it goes on waiting.
pub data Accepting : Type 0 where
  waits : Accepting
  refused : ℕ → Accepting
  returned : ℕ → PeerCalls → Accepting

-- The result of `Accept`, and the connections that it has closed.
pub accept : ℕ → List AcceptEnd → Accepting × List ℕ
unfolding peer_allowed
accept euid [] = (waits, [])
accept euid (accept_failed e ∷ rest) = (refused e, [])
accept euid (accepted conn peer ∷ rest) =
    let later = accept euid rest in
    if is_allowed (peer_allowed euid peer)
    then (returned conn peer, [])
    else (later.0, conn ∷ later.1)

pub data ListenError : Type 0 where
  not_absolute : ListenError
  bad_parent bad_socket bad_identity : EndpointError → ListenError
  bad_existing : StaleError → ListenError
  listen_failed not_protected : ℕ → ListenError
  no_unix_listener : ListenError

-- What the calls return, in their order.
pub record ListenCalls : Type 0 where
  pub is_abs : Bool
  pub parent : Result ℕ FileInfo
  pub stale : Result StaleError (Unit {0})
  pub listen_err : Option ℕ
  pub is_unix_listener : Bool
  pub chmod_err : Option ℕ
  pub validated : LstatEnd
  pub identified : LstatEnd

abbrev pub in_context : {E F A : Type 0} → (E → F) → Result E A → Result F A
in_context f (ok a) = ok a
in_context f (err e) = err (f e)

abbrev pub nil_or : {F : Type 0} → (ℕ → F) → Option ℕ → Result F (Unit {0})
nil_or f none = ok tt
nil_or f (some e) = err (f e)

-- `listenLocal` up to the listening.
pub prepare : ℕ → ListenCalls → Result ListenError (Unit {0})
unfolding validate_endpoint_parent
prepare euid c =
    refuse_if (not c.is_abs) not_absolute
    >> (in_context bad_parent (validate_endpoint_parent euid c.parent)
        >> (in_context bad_existing c.stale >> nil_or listen_failed c.listen_err))

-- Behind it: the identity to which the cleanup is bound.
pub protect : ℕ → ListenCalls → Result ListenError Identity
unfolding validate_socket socket_identity
protect euid c =
    refuse_if (not c.is_unix_listener) no_unix_listener
    >> (nil_or not_protected c.chmod_err
        >> (in_context bad_socket (validate_socket euid c.validated)
            >> in_context bad_identity (socket_identity c.identified)))

-- What has been done to the endpoint in the end.
pub data Trace : Type 0 where
  -- there was no listener, it is there, or it was closed and the removal of the socket called
  no_listener listening taken_down : Trace

pub listen_end : Result ListenError Identity → Result ListenError Identity × Trace
listen_end (ok i) = (ok i, listening)
listen_end (err e) = (err e, taken_down)

pub listen_prepared :
    ℕ → ListenCalls → Result ListenError (Unit {0}) → Result ListenError Identity × Trace
unfolding listen_end protect
listen_prepared euid c (err e) = (err e, no_listener)
listen_prepared euid c (ok u) = listen_end (protect euid c)

pub listen_local : ℕ → ListenCalls → Result ListenError Identity × Trace
unfolding listen_prepared prepare
listen_local euid c = listen_prepared euid c (prepare euid c)

pub data DialError : Type 0 where
  bad_endpoint : EndpointError → DialError
  not_dialed : ℕ → DialError
  peer_unknown : PeerError → DialError
  peer_refused : DialError

pub check_peer : Result PeerError Bool → Result DialError (Unit {0})
check_peer (err e) = err (peer_unknown e)
check_peer (ok b) = if not b then err peer_refused else ok tt

-- `dialLocal`; where the peer is not allowed it closes the connection.
pub dial_local : ℕ → LstatEnd → Option ℕ → PeerCalls → Result DialError (Unit {0})
unfolding validate_socket check_peer peer_allowed
dial_local euid l dial_err peer =
    in_context bad_endpoint (validate_socket euid l)
    >> (nil_or not_dialed dial_err >> check_peer (peer_allowed euid peer))
