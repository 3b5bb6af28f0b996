-- ===== src/LocalGateway/Endpoint.antt =====
-- localgateway/endpoint_unix.go: the checks on a socket and on its directory. Removal and Listen have
-- what is done with one, and Windows has endpoint_windows.go. What the system calls return is an
-- argument.
pub mod Removal
pub mod Race
pub mod Listen
pub mod Windows
pub mod Tests
use Prim.Native.Nat.{◌%◌}
use go_toolbelt.Base.{
  ℕ, ◌≡◌, refl, Bool, true, false, not, ◌||◌, ◌==◌, Option, none, some, if◌then◌else◌, arith,
}
use go_toolbelt.Base.Mode.{is_written_by_others}
use go_toolbelt.Base.Result.{Result, ok, err}

-- What is read of an `os.FileInfo`; `stat` is its `syscall.Stat_t`, if it has one.
pub record FileStat : Type 0 where
  pub uid : ℕ
  pub device : ℕ
  pub inode : ℕ

pub record FileInfo : Type 0 where
  pub is_dir : Bool
  pub is_socket : Bool
  pub perm : ℕ
  pub stat : Option FileStat

-- `os.Lstat`, with `os.ErrNotExist` by itself.
pub data LstatEnd : Type 0 where
  not_exist : LstatEnd
  lstat_failed : ℕ → LstatEnd
  found : FileInfo → LstatEnd

pub data EndpointError : Type 0 where
  parent_unknown : ℕ → EndpointError
  parent_unsafe no_socket socket_not_private socket_of_another no_identity : EndpointError
  system_error : ℕ → EndpointError

abbrev is_owned : ℕ → Option FileStat → Bool
is_owned euid none = false
is_owned euid (some s) = s.uid == euid

pub validate_endpoint_parent : ℕ → Result ℕ FileInfo → Result EndpointError (Unit {0})
validate_endpoint_parent euid (err e) = err (parent_unknown e)
validate_endpoint_parent euid (ok info) =
    if not info.is_dir || not (is_owned euid info.stat) || is_written_by_others info.perm
    then err parent_unsafe
    else ok tt

pub check_socket : ℕ → FileInfo → Result EndpointError (Unit {0})
check_socket euid info =
    if not info.is_socket || not (info.perm % 64 == 0)
    then err socket_not_private
    else if not (is_owned euid info.stat)
    then err socket_of_another
    else ok tt

-- `no_socket` is the error that there is no such file.
pub validate_socket : ℕ → LstatEnd → Result EndpointError (Unit {0})
unfolding check_socket
validate_socket euid not_exist = err no_socket
validate_socket euid (lstat_failed e) = err (system_error e)
validate_socket euid (found info) = check_socket euid info

-- The device and the inode.
abbrev pub Identity : Type 0
Identity = ℕ × ℕ

abbrev pub identity_of : Option FileStat → Result EndpointError Identity
identity_of none = err no_identity
identity_of (some s) = ok (s.device, s.inode)

pub socket_identity : LstatEnd → Result EndpointError Identity
socket_identity not_exist = err no_socket
socket_identity (lstat_failed e) = err (system_error e)
socket_identity (found info) = identity_of info.stat

-- A socket that only its owner, the user, may use.
abbrev pub IsPrivateSocket : ℕ → LstatEnd → Type 0
IsPrivateSocket euid l =
    (info : FileInfo) × (st : FileStat) × (l ≡ found info)
    × (info.is_socket ≡ true)
    × (info.perm % 64 ≡ 0)
    × (info.stat ≡ some st)
    × (st.uid ≡ euid)

check_socket-private :
    (euid : ℕ) (info : FileInfo) (o : Option FileStat)
    → info.stat ≡ o
    → check_socket euid info ≡ ok tt
    → IsPrivateSocket euid (found info)
unfolding check_socket
check_socket-private euid info none e h = absurd (ground arith)
check_socket-private euid info (some st) e h =
    (info, st, refl, ground arith, ground arith, e, ground arith)

pub validate_socket-private :
    (euid : ℕ) (l : LstatEnd) → validate_socket euid l ≡ ok tt → IsPrivateSocket euid l
unfolding validate_socket
validate_socket-private euid not_exist h = absurd cc
validate_socket-private euid (lstat_failed e) h = absurd cc
validate_socket-private euid (found info) h = check_socket-private euid info info.stat refl h
