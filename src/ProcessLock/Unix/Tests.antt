-- ===== src/ProcessLock/Unix/Tests.antt =====
-- processlock/lock_unix.go: an acquisition that succeeds, for the user 501.
use go_toolbelt.Base.{◌≡◌, ◌↔◌, refl, false, none}
use go_toolbelt.Base.Result.{ok}
use go_toolbelt.Base.Mode.{Stat, directory_kind, regular_kind}
use go_toolbelt.ProcessLock.Unix.{
  Calls, opened, got_lock, acquire, validate_private_directory, check_directory, check_open,
  validate_file, check_file, take_lock, IsOwned, acquire_iff,
}

-- The modes 040700 and 0100600.
abbrev free : Calls
free = record {
  directory = ok (record { mode = 16832; uid = 501; nlink = 3 });
  open_end = opened;
  file_is_nil = false;
  file = ok (record { mode = 33152; uid = 501; nlink = 1 });
  chmod_err = none;
  flock = got_lock;
}

free_acquired : acquire 501 free ≡ ok tt
unfolding acquire validate_private_directory check_directory check_open validate_file check_file
    take_lock
free_acquired = refl

acquire_iff_example : (acquire 501 free ≡ ok tt) ↔ (
    ((s : Stat) × (free.directory ≡ ok s) × IsOwned 501 directory_kind s)
    × ((s : Stat) × (free.file ≡ ok s) × IsOwned 501 regular_kind s × (s.nlink ≡ 1))
    × (free.open_end ≡ opened)
    × (free.file_is_nil ≡ false)
    × (free.chmod_err ≡ none)
    × (free.flock ≡ got_lock))
acquire_iff_example = acquire_iff 501 free
