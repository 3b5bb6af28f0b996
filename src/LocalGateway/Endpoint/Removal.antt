-- ===== src/LocalGateway/Endpoint/Removal.antt =====
-- localgateway/endpoint_unix.go: `removeOwnedSocket`, `restoreQuarantinedSocket` and
-- `removeStaleSocket`. `os.Rename` moves the socket aside under a random name, where its identity is
-- checked before it is removed.
pub mod Laws
mod Tests
use go_toolbelt.Base.{ℕ, Bool, not, ◌&&◌, ◌==◌, List, [], ◌∷◌, Option, none, some, if◌then◌else◌}
use go_toolbelt.Base.Result.{Result, ok, err}
use go_toolbelt.LocalGateway.Endpoint.{
  LstatEnd, not_exist, lstat_failed, found, EndpointError, no_socket, Identity, validate_socket,
  socket_identity,
}

-- `os.Rename`
pub data RenameEnd : Type 0 where
  renamed nothing_there : RenameEnd
  rename_failed : ℕ → RenameEnd

-- What the calls return, in their order: the random name, the move aside, the look at the moved
-- file, the look at the endpoint before the move back and that move, and the removal.
pub record Calls : Type 0 where
  pub name_err : Option ℕ
  pub aside : RenameEnd
  pub moved : LstatEnd
  pub endpoint : LstatEnd
  pub back_err : Option ℕ
  pub remove_err : Option ℕ

pub data RemovalError : Type 0 where
  io_error : ℕ → RemovalError
  bad_identity : EndpointError → RemovalError
  identity_changed replaced_meanwhile : RemovalError

-- What becomes of the file that was moved aside.
pub data Fate : Type 0 where
  -- nothing was moved
  untouched : Fate
  removed kept_aside moved_back : Fate

abbrev pub io_errors : Option ℕ → List RemovalError
io_errors none = []
io_errors (some e) = io_error e ∷ []

pub restore_quarantined : Calls → LstatEnd → List RemovalError × Fate
restore_quarantined c (found info) = (replaced_meanwhile ∷ [], kept_aside)
restore_quarantined c (lstat_failed e) = (io_error e ∷ [], kept_aside)
restore_quarantined c not_exist =
    (io_errors c.back_err, elim c.back_err [ none ↦ moved_back | some e ↦ kept_aside ])

abbrev pub same_identity : Identity → Identity → Bool
same_identity (d, i) (d', i') = d == d' && i == i'

abbrev pub joined_with : RemovalError → List RemovalError × Fate → List RemovalError × Fate
joined_with e (es, f) = (e ∷ es, f)

pub check_moved : Identity → Calls → Result EndpointError Identity → List RemovalError × Fate
unfolding restore_quarantined
check_moved expected c (err e) = joined_with (bad_identity e) (restore_quarantined c c.endpoint)
check_moved expected c (ok actual) =
    if not (same_identity actual expected)
    then joined_with identity_changed (restore_quarantined c c.endpoint)
    else (io_errors c.remove_err, elim c.remove_err [ none ↦ removed | some e ↦ kept_aside ])

pub move_aside : Identity → Calls → RenameEnd → List RemovalError × Fate
unfolding check_moved socket_identity
move_aside expected c nothing_there = ([], untouched)
move_aside expected c (rename_failed e) = (io_error e ∷ [], untouched)
move_aside expected c renamed = check_moved expected c (socket_identity c.moved)

-- The errors that it joins, none for nil, and what became of the file.
pub remove_owned_socket : Identity → Calls → List RemovalError × Fate
unfolding move_aside
remove_owned_socket expected c = elim c.name_err [
  | some e ↦ (io_error e ∷ [], untouched)
  | none ↦ move_aside expected c c.aside
]

-- `DialContext` on an endpoint that may be stale.
pub data DialEnd : Type 0 where
  answered connection_refused : DialEnd
  dial_failed : ℕ → DialEnd

pub data StaleError : Type 0 where
  unsafe_endpoint : EndpointError → StaleError
  unidentified : EndpointError → StaleError
  already_active : StaleError
  not_proved_stale : ℕ → StaleError
  not_removed : List RemovalError → StaleError

pub after_removal : List RemovalError × Fate → Result StaleError (Unit {0}) × Fate
after_removal ([], f) = (ok tt, f)
after_removal (e ∷ es, f) = (err (not_removed (e ∷ es)), f)

pub dial_stale : Identity → Calls → DialEnd → Result StaleError (Unit {0}) × Fate
unfolding after_removal remove_owned_socket
dial_stale expected c answered = (err already_active, untouched)
dial_stale expected c (dial_failed e) = (err (not_proved_stale e), untouched)
dial_stale expected c connection_refused = after_removal (remove_owned_socket expected c)

pub identify_stale :
    Calls → DialEnd → Result EndpointError Identity → Result StaleError (Unit {0}) × Fate
unfolding dial_stale
identify_stale c d (err e) = (err (unidentified e), untouched)
identify_stale c d (ok expected) = dial_stale expected c d

pub check_stale :
    LstatEnd
    → DialEnd
    → Calls
    → Result EndpointError (Unit {0})
    → Result StaleError (Unit {0}) × Fate
unfolding identify_stale socket_identity
check_stale l d c (err no_socket) = (ok tt, untouched)
check_stale l d c (err e) = (err (unsafe_endpoint e), untouched)
check_stale l d c (ok u) = identify_stale c d (socket_identity l)

-- `removeStaleSocket`, by two looks at the endpoint, the dialing and the removal.
pub remove_stale_socket :
    ℕ → LstatEnd → LstatEnd → DialEnd → Calls → Result StaleError (Unit {0}) × Fate
unfolding check_stale validate_socket
remove_stale_socket euid first second d c = check_stale second d c (validate_socket euid first)
