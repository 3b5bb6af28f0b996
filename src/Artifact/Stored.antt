-- ===== src/Artifact/Stored.antt =====
-- artifact/artifact.go: `validateStoredArtifact`, over what each of its calls of the file system
-- returns. A file's identity is what `os.SameFile` compares.
pub mod Tests
use go_toolbelt.Base.{
  ℕ, ◌≡◌, ◌↔◌, Bool, true, false, not, ◌||◌, Option, none, some, length, if◌then◌else◌, ◌==◌, arith,
  refl,
}
use go_toolbelt.Base.Result.{Result, ok, err}
use go_toolbelt.Base.Bytes.{Bytes, same, same_iff}

pub record Info : Type 0 where
  pub regular : Bool
  pub identity : ℕ
  pub size : ℕ
  pub mod_time : ℕ

-- `os.Lstat`
pub data Lstat : Type 0 where
  missing : Lstat
  lstat_failed : ℕ → Lstat
  found : Info → Lstat

pub data StoredError : Type 0 where
  io_error : ℕ → StoredError
  not_exist not_regular changed mismatch : StoredError

-- What the calls return, in their order.
pub record Checks : Type 0 where
  pub before : Lstat
  pub open_err : Option ℕ
  pub opened : Result ℕ Info
  pub contents : Result ℕ Bytes
  pub validated : Result ℕ Info
  pub after : Lstat

pub compare_last : Info → Info → Lstat → Result StoredError Bool
compare_last opened validated missing = err not_exist
compare_last opened validated (lstat_failed e) = err (io_error e)
compare_last opened validated (found after) =
    if not after.regular
      || not (opened.identity == after.identity)
      || not (after.size == validated.size)
      || not (after.mod_time == validated.mod_time)
    then err changed
    else ok true

pub compare_validated : Info → Result ℕ Info → Lstat → Result StoredError Bool
unfolding compare_last
compare_validated opened (err e) after = err (io_error e)
compare_validated opened (ok v) after =
    if not (v.size == opened.size) || not (v.mod_time == opened.mod_time)
    then err changed
    else compare_last opened v after

module _ (sha : Bytes → Bytes) (want : Bytes) (want_size : ℕ) where
  pub check_contents : Info → Result ℕ Bytes → Result ℕ Info → Lstat → Result StoredError Bool
  unfolding compare_validated same
  check_contents opened (err e) validated after = err (io_error e)
  check_contents opened (ok bytes) validated after =
      if not (length bytes == want_size) || not (same (sha bytes) want)
      then err mismatch
      else compare_validated opened validated after

  pub check_opened : Info → Checks → Option ℕ → Result ℕ Info → Result StoredError Bool
  unfolding check_contents
  check_opened before c (some e) opened = err (io_error e)
  check_opened before c none (err e) = err (io_error e)
  check_opened before c none (ok opened) =
      if not opened.regular || not (before.identity == opened.identity)
      then err changed
      else check_contents opened c.contents c.validated c.after

  pub check_before : Checks → Lstat → Result StoredError Bool
  unfolding check_opened
  check_before c missing = ok false
  check_before c (lstat_failed e) = err (io_error e)
  check_before c (found before) =
      if not before.regular then err not_regular else check_opened before c c.open_err c.opened

  -- `validateStoredArtifact`
  pub validate_stored : Checks → Result StoredError Bool
  unfolding check_before
  validate_stored c = check_before c c.before

  -- The looks at the path and at the open file saw one regular file, with the wanted contents, and
  -- size and time from the opening on.
  pub record IsStored (c : Checks) : Type 0 where
    pub first : Info
    pub opened : Info
    pub validated : Info
    pub last : Info
    pub bytes : Bytes
    pub looks :
        (c.before ≡ found first)
        × (c.opened ≡ ok opened)
        × (c.contents ≡ ok bytes)
        × (c.validated ≡ ok validated)
        × (c.after ≡ found last)
    pub regular : (first.regular ≡ true) × (opened.regular ≡ true) × (last.regular ≡ true)
    pub one_file : (first.identity ≡ opened.identity) × (opened.identity ≡ last.identity)
    pub unchanged :
        (validated.size ≡ opened.size)
        × (last.size ≡ opened.size)
        × (validated.mod_time ≡ opened.mod_time)
        × (last.mod_time ≡ opened.mod_time)
    pub contents : (sha bytes ≡ want) × (length bytes ≡ want_size)

  from_looks :
      (c : Checks) (before : Lstat) (open_err : Option ℕ) (opened : Result ℕ Info)
      (contents : Result ℕ Bytes) (validated : Result ℕ Info) (after : Lstat)
      → c.before ≡ before
      → c.open_err ≡ open_err
      → c.opened ≡ opened
      → c.contents ≡ contents
      → c.validated ≡ validated
      → c.after ≡ after
      → validate_stored c ≡ ok true
      → IsStored c
  unfolding validate_stored
  from_looks c (found i) none (ok o) (ok b) (ok v) (found l) p₁ p₂ p₃ p₄ p₅ p₆ h = record {
    first = i;
    opened = o;
    validated = v;
    last = l;
    bytes = b;
    looks = (p₁, p₃, p₄, p₅, p₆);
    regular = ground arith;
    one_file = ground arith;
    unchanged = ground arith;
    contents = ground (arith, same_iff (sha b) want);
  }
  from_looks c _ _ _ _ _ _ p₁ p₂ p₃ p₄ p₅ p₆ h = absurd (ground arith)

  -- `validateStoredArtifact` reports an artifact only where both looks at the path and the first look
  -- at the open file saw a regular file, of one identity; the size and the time that the open file had
  -- before its contents were read are those that it had behind them and those of the last look at the
  -- path (those of the first look at the path are not compared); and its contents have the wanted
  -- digest and size. It reports none exactly where nothing stands at the path.
  pub validate_stored_sound :
      (c : Checks)
      → (validate_stored c ≡ ok true → IsStored c)
        × ((validate_stored c ≡ ok false) ↔ (c.before ≡ missing))
  unfolding validate_stored
  validate_stored_sound c = (
    from_looks c c.before c.open_err c.opened c.contents c.validated c.after refl refl refl refl
        refl refl,
    ((λ h. ground arith), λ h. ground arith),
  )
