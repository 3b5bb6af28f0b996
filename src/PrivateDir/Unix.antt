-- ===== src/PrivateDir/Unix.antt =====
-- privatedir/privatedir_unix.go: `ensure`, `validate` and `validateCreationParent` for Linux and
-- macOS. What the system calls return is an argument.
mod Tests
use go_toolbelt.Base.{
  ℕ, ◌≡◌, ◌↔◌, refl, true, false, not, ◌&&◌, ◌||◌, ◌==◌, ◌⊎◌, inl, inr, Option, none, some,
  if◌then◌else◌, arith,
}
use go_toolbelt.Base.Mode.{Stat, kind, directory_kind, is_private, is_sticky, is_written_by_others}
use go_toolbelt.Base.Result.{Result, ok, err, ◌>>◌, then-eq-ok}
use go_toolbelt.ProcessLock.Unix.{validate_private_directory, IsOwned, directory_iff}

pub data DirError : Type 0 where
  system_error : ℕ → DirError
  not_directory directory_of_another directory_not_private : DirError
  parent_not_directory parent_unsafe changed_identity : DirError

pub check_directory : ℕ → Stat → Result DirError (Unit {0})
check_directory euid s =
    if not (kind s.mode == directory_kind)
    then err not_directory
    else if not (s.uid == euid)
    then err directory_of_another
    else if not (is_private s.mode)
    then err directory_not_private
    else ok tt

pub validate : ℕ → Result ℕ Stat → Result DirError (Unit {0})
unfolding check_directory
validate euid (err e) = err (system_error e)
validate euid (ok s) = check_directory euid s

pub check_parent : ℕ → Stat → Result DirError (Unit {0})
check_parent euid s =
    if not (kind s.mode == directory_kind)
    then err parent_not_directory
    else if not (is_written_by_others s.mode) || (is_sticky s.mode && (s.uid == 0 || s.uid == euid))
    then ok tt
    else err parent_unsafe

pub validate_creation_parent : ℕ → Result ℕ Stat → Result DirError (Unit {0})
unfolding check_parent
validate_creation_parent euid (err e) = err (system_error e)
validate_creation_parent euid (ok s) = check_parent euid s

-- `os.Mkdir`
pub data MkdirEnd : Type 0 where
  made exists : MkdirEnd
  mkdir_failed : ℕ → MkdirEnd

-- What the calls return, in their order: the look at the parent, the making of the directory, the
-- look at what was made, the setting of its mode, and the look of `validate`.
pub record Calls : Type 0 where
  pub parent : Result ℕ Stat
  pub mkdir : MkdirEnd
  pub created : Result ℕ Stat
  pub chmod_err : Option ℕ
  pub final : Result ℕ Stat

pub check_created : ℕ → Result ℕ Stat → Result DirError (Unit {0})
check_created euid (err e) = err (system_error e)
check_created euid (ok s) =
    if not (kind s.mode == directory_kind) || not (s.uid == euid)
    then err changed_identity
    else ok tt

abbrev pub nil_or : Option ℕ → Result DirError (Unit {0})
nil_or none = ok tt
nil_or (some e) = err (system_error e)

pub after_mkdir : ℕ → Calls → MkdirEnd → Result DirError (Unit {0})
unfolding check_created validate
after_mkdir euid c made =
    check_created euid c.created >> (nil_or c.chmod_err >> validate euid c.final)
after_mkdir euid c exists = validate euid c.final
after_mkdir euid c (mkdir_failed e) = err (system_error e)

pub ensure : ℕ → Calls → Result DirError (Unit {0})
unfolding validate_creation_parent after_mkdir
ensure euid c = validate_creation_parent euid c.parent >> after_mkdir euid c c.mkdir

-- A parent in which nobody else can replace the directory: others may not write there, or it is sticky
-- and belongs to root or to the user.
abbrev pub IsSafeParent : ℕ → Stat → Type 0
IsSafeParent euid s =
    (kind s.mode ≡ directory_kind)
    × ((is_written_by_others s.mode ≡ false)
        ⊎ ((is_sticky s.mode ≡ true) × ((s.uid ≡ 0) ⊎ (s.uid ≡ euid))))

check_parent-safe : (euid : ℕ) (s : Stat) → check_parent euid s ≡ ok tt → IsSafeParent euid s
unfolding check_parent
check_parent-safe euid s h = ground arith

parent-safe :
    (euid : ℕ) (r : Result ℕ Stat)
    → validate_creation_parent euid r ≡ ok tt
    → (s : Stat) × (r ≡ ok s) × IsSafeParent euid s
unfolding validate_creation_parent
parent-safe euid (err e) h = absurd cc
parent-safe euid (ok s) h = (s, refl, check_parent-safe euid s h)

check_directory_iff :
    (euid : ℕ) (s : Stat) → (check_directory euid s ≡ ok tt) ↔ IsOwned euid directory_kind s
unfolding check_directory
check_directory_iff euid s = ((λ h. ground arith), λ h. ground arith)

-- `validate` accepts what is a directory of the user to which nobody else has access, which is what
-- the process lock demands of the directory that it is in.
validate_iff_lock :
    (euid : ℕ) (r : Result ℕ Stat)
    → ((validate euid r ≡ ok tt) ↔ ((s : Stat) × (r ≡ ok s) × IsOwned euid directory_kind s))
      × ((validate euid r ≡ ok tt) ↔ (validate_private_directory euid r ≡ ok tt))
unfolding validate
validate_iff_lock euid (err e) = (
  ((λ h. absurd cc), λ (s, p, h). absurd cc),
  ((λ h. absurd cc), λ h. let (s, p, own) = (directory_iff euid (err e)).0 h in absurd cc),
)
validate_iff_lock euid (ok s) = (
  (
    (λ h. (s, refl, (check_directory_iff euid s).0 h)),
    λ (t, p, h). let e : t ≡ s = cc in (check_directory_iff euid s).1 (rw e at h),
  ),
  (
    (λ h. (directory_iff euid (ok s)).1 (s, refl, (check_directory_iff euid s).0 h)),
    λ h.
        let (t, p, own) = (directory_iff euid (ok s)).0 h in
        let e : t ≡ s = cc in (check_directory_iff euid s).1 (rw e at own),
  ),
)

after_mkdir-final :
    (euid : ℕ) (c : Calls) (m : MkdirEnd)
    → after_mkdir euid c m ≡ ok tt
    → (validate euid c.final ≡ ok tt) × ((m ≡ made) ⊎ (m ≡ exists))
unfolding after_mkdir
after_mkdir-final euid c made h =
    let (p₁, h₁) = then-eq-ok (check_created euid c.created) _ h in
    let (p₂, h₂) = then-eq-ok (nil_or c.chmod_err) (validate euid c.final) h₁ in (h₂, inl refl)
after_mkdir-final euid c exists h = (h, inr refl)
after_mkdir-final euid c (mkdir_failed e) h = absurd cc

-- When `ensure` succeeds, the parent was safe, the directory was made or was there, and the last look
-- shows one that a process lock may be put in.
pub ensure_fits_lock :
    (euid : ℕ) (c : Calls)
    → ensure euid c ≡ ok tt
    → ((s : Stat) × (c.parent ≡ ok s) × IsSafeParent euid s)
      × ((c.mkdir ≡ made) ⊎ (c.mkdir ≡ exists))
      × (validate_private_directory euid c.final ≡ ok tt)
unfolding ensure
ensure_fits_lock euid c h =
    let (p, h₁) =
      then-eq-ok (validate_creation_parent euid c.parent) (after_mkdir euid c c.mkdir) h in
    let (valid, there) = after_mkdir-final euid c c.mkdir h₁ in
    (parent-safe euid c.parent p, there, ((validate_iff_lock euid c.final).1).0 valid)
