-- ===== src/ProcessLock/Windows/Tests.antt =====
-- processlock/lock_windows.go: a lock in a directory that others may read.
use go_toolbelt.Base.{◌≡◌, refl, false, Option, none, some}
use go_toolbelt.Base.Result.{ok}
use go_toolbelt.Acl.{
  Descriptor, HandleInfo, has_any, grants_mutation, directory_descriptor, check_security,
  check_descriptor, check_dacl, check_entries, has_trusted_owner, current_user_sid, user_sid,
}
use go_toolbelt.Acl.Tests.{user, own, readable, directory}
use go_toolbelt.ProcessLock.Windows.{
  check_entry, is_trusted_owner, is_trusted_principal, validate_current_user_security,
  validate_private_directory, check_handle, validate_lock_handle, opened, Calls, acquire,
}
use go_toolbelt.ProcessLock.Windows.Laws.{IsSafe, IsPlain, acquire_guards}

abbrev calls : Calls
calls = record {
  directory_user = user;
  directory = directory readable;
  path_err = none;
  descriptor_err = none;
  open_end = opened;
  user = user;
  info = ok (record { is_directory = false; is_reparse_point = false; links = 1 });
  security = ok (some own);
}

acquired : acquire calls ≡ ok tt
unfolding acquire validate_private_directory validate_current_user_security validate_lock_handle
    check_handle check_entry is_trusted_owner is_trusted_principal has_any grants_mutation
    directory_descriptor check_security check_descriptor check_dacl check_entries has_trusted_owner
    current_user_sid user_sid
acquired = refl

acquire_guards_example :
    ((o : Option Descriptor) × (directory_descriptor calls.directory ≡ ok o)
      × IsSafe calls.directory_user o)
    × ((i : HandleInfo) × (calls.info ≡ ok i) × IsPlain i)
    × ((o : Option Descriptor) × (calls.security ≡ ok o) × IsSafe calls.user o)
acquire_guards_example = acquire_guards calls acquired
