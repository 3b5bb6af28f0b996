-- ===== src/PrivateDir/Windows/Tests.antt =====
-- privatedir/privatedir_windows.go: a directory of the user's in one that others may read.
use go_toolbelt.Base.{◌≡◌, ◌⊎◌, refl, none}
use go_toolbelt.Base.Result.{ok}
use go_toolbelt.Acl.{
  has_any, grants_mutation, directory_descriptor, check_security, check_descriptor, check_dacl,
  check_entries, has_trusted_owner, current_user_sid, user_sid,
}
use go_toolbelt.Acl.Tests.{user, own, readable, directory}
use go_toolbelt.ProcessLock.Windows.{validate_private_directory}
use go_toolbelt.PrivateDir.Windows.{
  validate_private_security, validate_creation_security, trusted_sid, check_private_entry,
  check_creation_entry, validate, validate_creation_parent, created, already_exists, Calls, ensure,
  ensure_fits_windows_lock,
}

abbrev calls : Calls
calls = record {
  parent_user = user;
  parent = directory readable;
  path_err = none;
  descriptor_err = none;
  create = already_exists;
  user = user;
  directory = directory own;
}

ensured : ensure calls ≡ ok tt
unfolding ensure validate validate_creation_parent validate_private_security
    validate_creation_security trusted_sid check_private_entry check_creation_entry has_any
    grants_mutation directory_descriptor check_security check_descriptor check_dacl check_entries
    has_trusted_owner current_user_sid user_sid
ensured = refl

ensure_fits_windows_lock_example :
    (validate_private_directory calls.parent_user calls.parent ≡ ok tt)
    × ((calls.create ≡ created) ⊎ (calls.create ≡ already_exists))
    × (validate_private_directory calls.user calls.directory ≡ ok tt)
ensure_fits_windows_lock_example = ensure_fits_windows_lock calls ensured
