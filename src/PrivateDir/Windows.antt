-- ===== src/PrivateDir/Windows.antt =====
-- privatedir/privatedir_windows.go: the checks of a private directory and of the one it is made in, and
-- `ensure`.
mod Tests
use go_toolbelt.Base.{
  ℕ, ◌≡◌, ◌⊎◌, ◌↔◌, inl, inr, refl, Bool, not, ◌&&◌, ◌||◌, Option, if◌then◌else◌, arith,
}
use go_toolbelt.Base.Result.{Result, ok, err, ◌>>◌, ◌>>=◌, then-eq-ok, bind-eq-ok}
use go_toolbelt.Acl.Laws.{check_security_sound, check_security_iff}
use go_toolbelt.ProcessLock.Windows.{
  is_trusted_principal, is_trusted_owner, validate_private_directory,
}
use go_toolbelt.ProcessLock.Windows.Laws.{IsHarmless, IsSafe, safe_directory}
use go_toolbelt.Acl.{
  Sid, equals, AceType, access_allowed, access_denied, other_type, Ace, Descriptor, SecurityError,
  invalid_entry, granted, unsupported, system_error, is_inherit_only, grants_mutation, UserCalls,
  DirectoryCalls, directory_descriptor, nil_or, check_security,
}

pub trusted_sid : Sid → Sid → Bool
trusted_sid me sid = sid.is_valid && (equals sid me || sid.is_system || sid.is_admins)

pub check_private_entry : Sid → Ace → Result SecurityError (Unit {0})
unfolding trusted_sid
check_private_entry me a = elim a.ace_type [
  | access_allowed ↦
      if not a.sid.is_valid
      then err invalid_entry
      else if trusted_sid me a.sid
      then ok tt
      else err granted
  | access_denied ↦ ok tt
  | other_type ↦ err unsupported
]

pub check_creation_entry : Sid → Ace → Result SecurityError (Unit {0})
unfolding trusted_sid
check_creation_entry me a = elim a.ace_type [
  | access_allowed ↦
      if not a.sid.is_valid
      then err invalid_entry
      else if trusted_sid me a.sid
      then ok tt
      else if not (is_inherit_only a.flags) && grants_mutation a.mask
      then err granted
      else ok tt
  | access_denied ↦ ok tt
  | other_type ↦ err unsupported
]

pub validate_private_security : UserCalls → Option Descriptor → Result SecurityError (Unit {0})
unfolding trusted_sid check_private_entry
validate_private_security = check_security trusted_sid check_private_entry

pub validate_creation_security : UserCalls → Option Descriptor → Result SecurityError (Unit {0})
unfolding trusted_sid check_creation_entry
validate_creation_security = check_security trusted_sid check_creation_entry

pub validate : UserCalls → DirectoryCalls → Result SecurityError (Unit {0})
unfolding validate_private_security
validate u c = directory_descriptor c >>= validate_private_security u

pub validate_creation_parent : UserCalls → DirectoryCalls → Result SecurityError (Unit {0})
unfolding validate_creation_security
validate_creation_parent u c = directory_descriptor c >>= validate_creation_security u

-- `CreateDirectory`
pub data CreateEnd : Type 0 where
  created already_exists : CreateEnd
  create_failed : ℕ → CreateEnd

abbrev pub create_error : CreateEnd → Result SecurityError (Unit {0})
create_error created = ok tt
create_error already_exists = ok tt
create_error (create_failed e) = err (system_error e)

-- What the calls return, in their order. `descriptor_err` is the error of `currentUserSecurityDescriptor`,
-- which asks for the user too.
pub record Calls : Type 0 where
  pub parent_user : UserCalls
  pub parent : DirectoryCalls
  pub path_err : Option ℕ
  pub descriptor_err : Option ℕ
  pub create : CreateEnd
  pub user : UserCalls
  pub directory : DirectoryCalls

pub ensure : Calls → Result SecurityError (Unit {0})
unfolding validate_creation_parent validate
ensure c =
    validate_creation_parent c.parent_user c.parent
    >> (nil_or c.path_err
        >> (nil_or c.descriptor_err >> (create_error c.create >> validate c.user c.directory)))

entry_at :
    (me : Sid) (a : Ace) (t : AceType)
    → a.ace_type ≡ t
    → ((check_creation_entry me a ≡ ok tt) ↔ IsHarmless me a)
      × (check_private_entry me a ≡ ok tt → IsHarmless me a)
unfolding check_creation_entry check_private_entry trusted_sid is_trusted_principal
entry_at me a access_allowed e = (((λ h. ground arith), λ h. ground arith), λ h. ground arith)
entry_at me a access_denied e = (((λ h. ground arith), λ h. ground arith), λ h. ground arith)
entry_at me a other_type e = (((λ h. ground arith), λ h. ground arith), λ h. ground arith)

creation_entry_iff : (me : Sid) (a : Ace) → (check_creation_entry me a ≡ ok tt) ↔ IsHarmless me a
creation_entry_iff me a = (entry_at me a a.ace_type refl).0

-- What `validateCreationSecurity` accepts is what the process lock accepts.
creation_security_iff :
    (u : UserCalls) (o : Option Descriptor) → (validate_creation_security u o ≡ ok tt) ↔ IsSafe u o
unfolding validate_creation_security trusted_sid is_trusted_owner is_trusted_principal
creation_security_iff =
    check_security_iff trusted_sid check_creation_entry IsHarmless creation_entry_iff

validate_private_security-IsSafe :
    (u : UserCalls) (o : Option Descriptor) → validate_private_security u o ≡ ok tt → IsSafe u o
unfolding validate_private_security trusted_sid is_trusted_owner is_trusted_principal
validate_private_security-IsSafe =
    check_security_sound trusted_sid check_private_entry IsHarmless
      (λ me a. (entry_at me a a.ace_type refl).1)

create_error-ok : (e : CreateEnd) → create_error e ≡ ok tt → (e ≡ created) ⊎ (e ≡ already_exists)
create_error-ok created h = inl refl
create_error-ok already_exists h = inr refl
create_error-ok (create_failed e) h = absurd cc

-- When `ensure` succeeds on Windows, the directory was made or was there, in one that the process lock
-- accepts too: nobody but the user, the system and the administrators may change it. And the
-- directory is itself one in which the process lock may be put.
pub ensure_fits_windows_lock :
    (c : Calls)
    → ensure c ≡ ok tt
    → (validate_private_directory c.parent_user c.parent ≡ ok tt)
      × ((c.create ≡ created) ⊎ (c.create ≡ already_exists))
      × (validate_private_directory c.user c.directory ≡ ok tt)
unfolding ensure validate_creation_parent validate
ensure_fits_windows_lock c h =
    let (h₁, r₁) = then-eq-ok (validate_creation_parent c.parent_user c.parent) _ h in
    let (h₂, r₂) = then-eq-ok (nil_or c.path_err) _ r₁ in
    let (h₃, r₃) = then-eq-ok (nil_or c.descriptor_err) _ r₂ in
    let (h₄, r₄) = then-eq-ok (create_error c.create) (validate c.user c.directory) r₃ in
    let (o, p, q) =
      bind-eq-ok (directory_descriptor c.parent) (validate_creation_security c.parent_user) h₁ in
    let (o', p', q') =
      bind-eq-ok (directory_descriptor c.directory) (validate_private_security c.user) r₄ in
    (
      safe_directory c.parent_user c.parent o p ((creation_security_iff c.parent_user o).0 q),
      create_error-ok c.create h₄,
      safe_directory c.user c.directory o' p' (validate_private_security-IsSafe c.user o' q'),
    )
