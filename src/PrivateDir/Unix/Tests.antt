-- ===== src/PrivateDir/Unix/Tests.antt =====
-- privatedir/privatedir_unix.go: a directory of the user 501 that is made in a sticky one of root.
use go_toolbelt.Base.{◌≡◌, ◌⊎◌, refl, none}
use go_toolbelt.Base.Mode.{Stat}
use go_toolbelt.Base.Result.{ok}
use go_toolbelt.ProcessLock.Unix.{validate_private_directory}
use go_toolbelt.PrivateDir.Unix.{
  Calls, made, exists, validate, check_directory, validate_creation_parent, check_parent,
  check_created, after_mkdir, ensure, IsSafeParent, ensure_fits_lock,
}

-- The modes 041777 and 040700.
abbrev calls : Calls
calls = record {
  parent = ok (record { mode = 17407; uid = 0; nlink = 9 });
  mkdir = made;
  created = ok (record { mode = 16832; uid = 501; nlink = 2 });
  chmod_err = none;
  final = ok (record { mode = 16832; uid = 501; nlink = 2 });
}

ensured : ensure 501 calls ≡ ok tt
unfolding ensure validate_creation_parent check_parent after_mkdir check_created validate
    check_directory
ensured = refl

ensure_fits_lock_example :
    ((s : Stat) × (calls.parent ≡ ok s) × IsSafeParent 501 s)
    × ((calls.mkdir ≡ made) ⊎ (calls.mkdir ≡ exists))
    × (validate_private_directory 501 calls.final ≡ ok tt)
ensure_fits_lock_example = ensure_fits_lock 501 calls ensured
