-- ===== src/ProcessLock/Unix.antt =====
-- processlock/lock_unix.go: `acquire`, `validatePrivateDirectory` and `release` for Linux and macOS.
-- What the system calls return is an argument.
mod Tests
use Prim.Native.Nat.{◌%◌}
use go_toolbelt.Base.{
  ℕ, ◌≡◌, ◌↔◌, refl, Bool, false, not, ◌||◌, Option, none, some, is_some, ◌==◌, if◌then◌else◌,
  arith,
}
use go_toolbelt.Base.Mode.{Stat, kind, regular_kind, directory_kind, is_private}
use go_toolbelt.Base.Result.{Result, ok, err, ◌>>◌, refuse_if}

pub data AcquireError : Type 0 where
  system_error : ℕ → AcquireError
  symbolic_link no_file not_regular file_of_another multiple_links file_not_private : AcquireError
  not_directory directory_of_another directory_not_private : AcquireError
  locked : AcquireError

-- How `unix.Open` and `unix.Flock` end.
pub data OpenEnd : Type 0 where
  opened is_link : OpenEnd
  open_failed : ℕ → OpenEnd

pub data FlockEnd : Type 0 where
  got_lock would_block : FlockEnd
  flock_failed : ℕ → FlockEnd

-- What the calls of `acquire` return, in their order.
pub record Calls : Type 0 where
  pub directory : Result ℕ Stat
  pub open_end : OpenEnd
  pub file_is_nil : Bool
  pub file : Result ℕ Stat
  pub chmod_err : Option ℕ
  pub flock : FlockEnd

-- With the effective user.
pub check_directory : ℕ → Stat → Result AcquireError (Unit {0})
check_directory euid s =
    if not (kind s.mode == directory_kind)
    then err not_directory
    else if not (s.uid == euid)
    then err directory_of_another
    else if not (is_private s.mode)
    then err directory_not_private
    else ok tt

pub validate_private_directory : ℕ → Result ℕ Stat → Result AcquireError (Unit {0})
unfolding check_directory
validate_private_directory euid (err e) = err (system_error e)
validate_private_directory euid (ok s) = check_directory euid s

pub check_file : ℕ → Stat → Result AcquireError (Unit {0})
check_file euid s =
    if not (kind s.mode == regular_kind)
    then err not_regular
    else if not (s.uid == euid)
    then err file_of_another
    else if not (s.nlink == 1)
    then err multiple_links
    else if not (is_private s.mode)
    then err file_not_private
    else ok tt

pub check_open : OpenEnd → Result AcquireError (Unit {0})
check_open opened = ok tt
check_open is_link = err symbolic_link
check_open (open_failed e) = err (system_error e)

pub validate_file : ℕ → Result ℕ Stat → Result AcquireError (Unit {0})
unfolding check_file
validate_file euid (err e) = err (system_error e)
validate_file euid (ok s) = check_file euid s

pub take_lock : Option ℕ → FlockEnd → Result AcquireError (Unit {0})
take_lock (some e) f = err (system_error e)
take_lock none got_lock = ok tt
take_lock none would_block = err locked
take_lock none (flock_failed e) = err (system_error e)

-- `ok` stands for a handle.
pub acquire : ℕ → Calls → Result AcquireError (Unit {0})
unfolding validate_private_directory check_open validate_file take_lock
acquire euid c =
    validate_private_directory euid c.directory
    >> (check_open c.open_end
        >> (refuse_if c.file_is_nil no_file
            >> (validate_file euid c.file >> take_lock c.chmod_err c.flock)))

-- Whether the lock is released, by the errors of the unlocking and of the closing.
pub release : Option ℕ → Option ℕ → Bool
release unlock_err close_err = not (is_some unlock_err) || not (is_some close_err)

-- A private object of a kind, which the user owns.
abbrev pub IsOwned : ℕ → ℕ → Stat → Type 0
IsOwned euid k s = (kind s.mode ≡ k) × (s.uid ≡ euid) × (s.mode % 64 ≡ 0)

check_directory_iff :
    (euid : ℕ) (s : Stat) → (check_directory euid s ≡ ok tt) ↔ IsOwned euid directory_kind s
unfolding check_directory
check_directory_iff euid s = ((λ h. ground arith), λ h. ground arith)

check_file_iff :
    (euid : ℕ) (s : Stat)
    → (check_file euid s ≡ ok tt) ↔ (IsOwned euid regular_kind s × (s.nlink ≡ 1))
unfolding check_file
check_file_iff euid s = ((λ h. ground arith), λ h. ground arith)

then-ok : (a b : Result AcquireError (Unit {0})) → ((a >> b) ≡ ok tt) ↔ ((a ≡ ok tt) × (b ≡ ok tt))
then-ok (ok u) b = ((λ h. (refl, h)), λ h. h.1)
then-ok (err e) b = ((λ h. absurd cc), λ h. absurd cc)

pub directory_iff :
    (euid : ℕ) (r : Result ℕ Stat)
    → (validate_private_directory euid r ≡ ok tt)
      ↔ ((s : Stat) × (r ≡ ok s) × IsOwned euid directory_kind s)
unfolding validate_private_directory
directory_iff euid (err e) = ((λ h. absurd cc), λ (s, p, h). absurd cc)
directory_iff euid (ok s) = (
  (λ h. (s, refl, (check_directory_iff euid s).0 h)),
  λ (t, p, h). let e : t ≡ s = cc in (check_directory_iff euid s).1 (rw e at h),
)

file_iff :
    (euid : ℕ) (r : Result ℕ Stat)
    → (validate_file euid r ≡ ok tt)
      ↔ ((s : Stat) × (r ≡ ok s) × IsOwned euid regular_kind s × (s.nlink ≡ 1))
unfolding validate_file
file_iff euid (err e) = ((λ h. absurd cc), λ (s, p, own, one). absurd cc)
file_iff euid (ok s) = (
  (λ h. let (own, one) = (check_file_iff euid s).0 h in (s, refl, own, one)),
  λ (t, p, own, one). let e : t ≡ s = cc in (check_file_iff euid s).1 (rw e at own, rw e at one),
)

rest_iff :
    (o : OpenEnd) (chmod : Option ℕ) (f : FlockEnd) (b : Bool)
    → ((check_open o ≡ ok tt) × (refuse_if b no_file ≡ ok tt) × (take_lock chmod f ≡ ok tt))
      ↔ ((o ≡ opened) × (b ≡ false) × (chmod ≡ none) × (f ≡ got_lock))
unfolding check_open take_lock
rest_iff o chmod f b = ((λ h. ground arith), λ h. ground arith)

-- `acquire` returns a handle exactly if the directory is one, the user's and private, the open did
-- not fail, the file is regular, the user's, private and has one link, its mode could be set, and the
-- lock was free.
pub acquire_iff :
    (euid : ℕ) (c : Calls)
    → (acquire euid c ≡ ok tt) ↔ (
        ((s : Stat) × (c.directory ≡ ok s) × IsOwned euid directory_kind s)
        × ((s : Stat) × (c.file ≡ ok s) × IsOwned euid regular_kind s × (s.nlink ≡ 1))
        × (c.open_end ≡ opened)
        × (c.file_is_nil ≡ false)
        × (c.chmod_err ≡ none)
        × (c.flock ≡ got_lock))
unfolding acquire
acquire_iff euid c =
    let d = validate_private_directory euid c.directory in
    let o = check_open c.open_end in
    let n : Result AcquireError (Unit {0}) = refuse_if c.file_is_nil no_file in
    let f = validate_file euid c.file in
    let t = take_lock c.chmod_err c.flock in
    let s₁ = then-ok d (o >> (n >> (f >> t))) in
    let s₂ = then-ok o (n >> (f >> t)) in
    let s₃ = then-ok n (f >> t) in
    let s₄ = then-ok f t in
    let rest = rest_iff c.open_end c.chmod_err c.flock c.file_is_nil in
    (
      (λ h.
          let (hd, h₁) = s₁.0 h in
          let (ho, h₂) = s₂.0 h₁ in
          let (hn, h₃) = s₃.0 h₂ in
          let (hf, ht) = s₄.0 h₃ in
          let (r₁, r₂, r₃, r₄) = rest.0 (ho, hn, ht) in
          ((directory_iff euid c.directory).0 hd, (file_iff euid c.file).0 hf, r₁, r₂, r₃, r₄)),
      λ (hd, hf, r₁, r₂, r₃, r₄).
          let (ho, hn, ht) = rest.1 (r₁, r₂, r₃, r₄) in
          s₁.1 (
            (directory_iff euid c.directory).1 hd,
            s₂.1 (ho, s₃.1 (hn, s₄.1 ((file_iff euid c.file).1 hf, ht))),
          ),
    )
