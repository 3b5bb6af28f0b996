-- ===== src/ProcessLock/Windows.antt =====
-- processlock/lock_windows.go: `acquire`, its checks, and `release`.
pub mod Laws
mod Tests
use go_toolbelt.Base.{ℕ, Bool, not, ◌&&◌, ◌||◌, ◌==◌, Option, is_some, if◌then◌else◌}
use go_toolbelt.Base.Result.{Result, ok, err, ◌>>◌, ◌>>=◌}
use go_toolbelt.Acl.{
  Sid, equals, access_allowed, access_denied, other_type, Ace, Descriptor, SecurityError,
  invalid_entry, granted, unsupported, system_error, not_regular, multiple_links, locked,
  is_inherit_only, grants_mutation, UserCalls, HandleInfo, DirectoryCalls, directory_descriptor,
  nil_or, in_system, check_security,
}

unfoldable pub is_trusted_principal : Sid → Sid → Bool
is_trusted_principal me sid = equals sid me || sid.is_system || sid.is_admins

unfoldable pub is_trusted_owner : Sid → Sid → Bool
unfolding is_trusted_principal
is_trusted_owner me owner = owner.is_valid && is_trusted_principal me owner

pub check_entry : Sid → Ace → Result SecurityError (Unit {0})
unfolding is_trusted_principal
check_entry me a = elim a.ace_type [
  | access_allowed ↦
      if not a.sid.is_valid
      then err invalid_entry
      else if is_trusted_principal me a.sid
      then ok tt
      else if is_inherit_only a.flags || not (grants_mutation a.mask)
      then ok tt
      else if not (equals a.sid me)
      then err granted
      else ok tt
  | access_denied ↦ ok tt
  | other_type ↦ err unsupported
]

pub validate_current_user_security : UserCalls → Option Descriptor → Result SecurityError (Unit {0})
unfolding is_trusted_owner check_entry
validate_current_user_security = check_security is_trusted_owner check_entry

pub validate_private_directory : UserCalls → DirectoryCalls → Result SecurityError (Unit {0})
unfolding validate_current_user_security
validate_private_directory u c = directory_descriptor c >>= validate_current_user_security u

pub check_handle : HandleInfo → Result SecurityError (Unit {0})
check_handle info =
    if info.is_directory || info.is_reparse_point
    then err not_regular
    else if not (info.links == 1)
    then err multiple_links
    else ok tt

pub validate_lock_handle :
    UserCalls → Result ℕ HandleInfo → Result ℕ (Option Descriptor) → Result SecurityError (Unit {0})
unfolding check_handle validate_current_user_security
validate_lock_handle u info security =
    (in_system info >>= check_handle) >> (in_system security >>= validate_current_user_security u)

-- `CreateFile` on the lock file.
pub data OpenEnd : Type 0 where
  opened sharing_violation : OpenEnd
  open_failed : ℕ → OpenEnd

abbrev pub open_error : OpenEnd → Result SecurityError (Unit {0})
open_error opened = ok tt
open_error sharing_violation = err locked
open_error (open_failed e) = err (system_error e)

-- What the calls return, in their order. `descriptor_err` is the error of
-- `currentUserSecurityDescriptor`.
pub record Calls : Type 0 where
  pub directory_user : UserCalls
  pub directory : DirectoryCalls
  pub path_err : Option ℕ
  pub descriptor_err : Option ℕ
  pub open_end : OpenEnd
  pub user : UserCalls
  pub info : Result ℕ HandleInfo
  pub security : Result ℕ (Option Descriptor)

pub acquire : Calls → Result SecurityError (Unit {0})
unfolding validate_private_directory validate_lock_handle
acquire c =
    validate_private_directory c.directory_user c.directory
    >> (nil_or c.path_err
        >> (nil_or c.descriptor_err
            >> (open_error c.open_end >> validate_lock_handle c.user c.info c.security)))

-- By the error of `CloseHandle`: whether the lock is released, and the error.
pub release : Option ℕ → Bool × Option ℕ
release close_err = (not (is_some close_err), close_err)
