-- ===== src/ProcessLock/Windows/Laws.antt =====
-- processlock/lock_windows.go: what a lock that was acquired can rely on.
use go_toolbelt.Base.{ℕ, ◌≡◌, ◌⊎◌, ◌↔◌, refl, true, false, Option, arith}
use go_toolbelt.Base.Result.{Result, ok, err, ◌>>=◌, then-eq-ok, bind-eq-ok}
use go_toolbelt.Acl.{
  Sid, AceType, access_allowed, access_denied, other_type, Ace, Descriptor, is_inherit_only,
  grants_mutation, UserCalls, current_user_sid, HandleInfo, DirectoryCalls, directory_descriptor,
  nil_or, in_system,
}
use go_toolbelt.Acl.Laws.{IsAccepted, check_security_iff}
use go_toolbelt.ProcessLock.Windows.{
  is_trusted_principal, is_trusted_owner, check_entry, validate_current_user_security,
  validate_private_directory, check_handle, validate_lock_handle, open_error, Calls, acquire,
}

-- An entry that gives nobody but the user, the system and the administrators a right to change
-- anything here.
abbrev pub IsHarmless : Sid → Ace → Type 0
IsHarmless me a =
    (a.ace_type ≡ access_denied)
    ⊎ ((a.ace_type ≡ access_allowed)
        × (a.sid.is_valid ≡ true)
        × ((is_trusted_principal me a.sid ≡ true)
            ⊎ ((is_inherit_only a.flags ≡ true) ⊎ (grants_mutation a.mask ≡ false))))

check_entry_iff_at :
    (me : Sid) (a : Ace) (t : AceType)
    → a.ace_type ≡ t
    → (check_entry me a ≡ ok tt) ↔ IsHarmless me a
unfolding check_entry is_trusted_principal
check_entry_iff_at me a access_allowed e = ((λ h. ground arith), λ h. ground arith)
check_entry_iff_at me a access_denied e = ((λ h. ground arith), λ h. ground arith)
check_entry_iff_at me a other_type e = ((λ h. ground arith), λ h. ground arith)

check_entry_iff : (me : Sid) (a : Ace) → (check_entry me a ≡ ok tt) ↔ IsHarmless me a
check_entry_iff me a = check_entry_iff_at me a a.ace_type refl

-- A descriptor under which nobody else can change what it protects.
abbrev pub IsSafe : UserCalls → Option Descriptor → Type 0
IsSafe u o =
    (me : Sid) × (current_user_sid u ≡ ok me) × IsAccepted (is_trusted_owner me) (IsHarmless me) o

lock_security_iff :
    (u : UserCalls) (o : Option Descriptor)
    → (validate_current_user_security u o ≡ ok tt) ↔ IsSafe u o
unfolding validate_current_user_security
lock_security_iff = check_security_iff is_trusted_owner check_entry IsHarmless check_entry_iff

-- A directory with such a descriptor passes.
pub safe_directory :
    (u : UserCalls) (c : DirectoryCalls) (o : Option Descriptor)
    → directory_descriptor c ≡ ok o
    → IsSafe u o
    → validate_private_directory u c ≡ ok tt
unfolding validate_private_directory
safe_directory u c o p safe = rw (p, validate_private_directory) ((lock_security_iff u o).1 safe)

-- A file that is no directory and no reparse point, and that has one name only.
abbrev pub IsPlain : HandleInfo → Type 0
IsPlain info = (info.is_directory ≡ false) × (info.is_reparse_point ≡ false) × (info.links ≡ 1)

check_handle_sound : (info : HandleInfo) → check_handle info ≡ ok tt → IsPlain info
unfolding check_handle
check_handle_sound info h = (ground arith, ground arith, ground arith)

in_system_ok : {A : Type 0} (r : Result ℕ A) (a : A) → in_system r ≡ ok a → r ≡ ok a
in_system_ok (ok x) a e = cc
in_system_ok (err x) a e = absurd cc

validate_lock_handle_sound :
    (u : UserCalls) (info : Result ℕ HandleInfo) (security : Result ℕ (Option Descriptor))
    → validate_lock_handle u info security ≡ ok tt
    → ((i : HandleInfo) × (info ≡ ok i) × IsPlain i)
      × ((o : Option Descriptor) × (security ≡ ok o) × IsSafe u o)
unfolding validate_lock_handle
validate_lock_handle_sound u info security h =
    let (h₁, h₂) =
      then-eq-ok (in_system info >>= check_handle)
        (in_system security >>= validate_current_user_security u) h in
    let (i, p, plain) = bind-eq-ok (in_system info) check_handle h₁ in
    let (o, q, safe) = bind-eq-ok (in_system security) (validate_current_user_security u) h₂ in
    (
      (i, in_system_ok info i p, check_handle_sound i plain),
      (o, in_system_ok security o q, (lock_security_iff u o).0 safe),
    )

-- A lock that `acquire` returns is on a plain file with one name, and nobody but the user, the system
-- and the administrators owns, or may change, the file or the directory that it is in.
pub acquire_guards :
    (c : Calls)
    → acquire c ≡ ok tt
    → ((o : Option Descriptor) × (directory_descriptor c.directory ≡ ok o)
        × IsSafe c.directory_user o)
      × ((i : HandleInfo) × (c.info ≡ ok i) × IsPlain i)
      × ((o : Option Descriptor) × (c.security ≡ ok o) × IsSafe c.user o)
unfolding acquire validate_private_directory
acquire_guards c h =
    let (h₁, r₁) = then-eq-ok (validate_private_directory c.directory_user c.directory) _ h in
    let (h₂, r₂) = then-eq-ok (nil_or c.path_err) _ r₁ in
    let (h₃, r₃) = then-eq-ok (nil_or c.descriptor_err) _ r₂ in
    let (h₄, r₄) =
      then-eq-ok (open_error c.open_end) (validate_lock_handle c.user c.info c.security) r₃ in
    let (o, p, safe) =
      bind-eq-ok (directory_descriptor c.directory)
        (validate_current_user_security c.directory_user) h₁ in
    let (plain, protected) = validate_lock_handle_sound c.user c.info c.security r₄ in
    ((o, p, (lock_security_iff c.directory_user o).0 safe), plain, protected)
