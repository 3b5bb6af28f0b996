-- ===== src/Acl.antt =====
-- privatedir/privatedir_windows.go and processlock/lock_windows.go: what the two have in common, each
-- in a copy of its own, of the security descriptors of Windows. PrivateDir/Windows.antt and
-- ProcessLock/Windows.antt have what differs. What the calls of golang.org/x/sys/windows return is an
-- argument.
pub mod Laws
pub mod Tests
use Prim.Native.Nat.{◌/◌, ◌%◌}
use go_toolbelt.Base.{
  ℕ, Bool, false, not, ◌&&◌, ◌||◌, ◌==◌, List, [], ◌∷◌, Option, none, some, if◌then◌else◌,
}
use go_toolbelt.Base.Result.{Result, ok, err, ◌>>◌, ◌>>=◌}

-- A security identifier, by a number; the system and the administrators have well-known ones.
pub record Sid : Type 0 where
  pub id : ℕ
  pub is_valid : Bool
  pub is_system : Bool
  pub is_admins : Bool

abbrev pub equals : Sid → Sid → Bool
equals s t = s.id == t.id

pub data AceType : Type 0 where
  access_allowed access_denied other_type : AceType

-- An entry of an access control list.
pub record Ace : Type 0 where
  pub ace_type : AceType
  pub flags : ℕ
  pub mask : ℕ
  pub sid : Sid

-- A security descriptor, with what `Owner`, `DACL` and `GetAce` return. Behind an owner stands whether
-- it is a default.
pub record Descriptor : Type 0 where
  pub is_valid : Bool
  pub owner : Result ℕ (Option Sid × Bool)
  pub dacl : Result ℕ (Option (List (Result ℕ Ace)))

pub data SecurityError : Type 0 where
  system_error : ℕ → SecurityError
  no_user unavailable of_another no_access_control invalid_entry granted unsupported : SecurityError
  -- of what was opened
  not_stable not_regular multiple_links locked : SecurityError

abbrev has_bit : ℕ → ℕ → Bool
has_bit mask bit = not (mask / bit % 2 == 0)

-- `INHERIT_ONLY_ACE`
abbrev pub is_inherit_only : ℕ → Bool
is_inherit_only flags = has_bit flags 8

-- The bits of `mutationRights`: to write, append, write extended attributes, delete a child, write
-- attributes, delete, write the list, write the owner, and the generic ones for all and to write.
abbrev pub mutation_rights : List ℕ
mutation_rights =
    2 ∷ 4 ∷ 16 ∷ 64 ∷ 256 ∷ 65_536 ∷ 262_144 ∷ 524_288 ∷ 268_435_456 ∷ 1_073_741_824 ∷ []

unfoldable pub has_any : ℕ → List ℕ → Bool
has_any mask [] = false
has_any mask (b ∷ bs) = has_bit mask b || has_any mask bs

-- `ace.Mask & mutationRights != 0`
unfoldable pub grants_mutation : ℕ → Bool
unfolding has_any
grants_mutation mask = has_any mask mutation_rights

-- The calls of `currentUserSID`.
pub record UserCalls : Type 0 where
  pub token_err : Option ℕ
  pub user : Result ℕ (Option Sid)
  pub copied : Result ℕ Sid

abbrev pub in_system : {A : Type 0} → Result ℕ A → Result SecurityError A
in_system (ok a) = ok a
in_system (err e) = err (system_error e)

unfoldable pub user_sid : UserCalls → Result ℕ (Option Sid) → Result SecurityError Sid
user_sid c (err e) = err (system_error e)
user_sid c (ok none) = err no_user
user_sid c (ok (some s)) = in_system c.copied

unfoldable pub current_user_sid : UserCalls → Result SecurityError Sid
unfolding user_sid
current_user_sid c = elim c.token_err [ some e ↦ err (system_error e) | none ↦ user_sid c c.user ]

-- Of an opened handle.
pub record HandleInfo : Type 0 where
  pub is_directory : Bool
  pub is_reparse_point : Bool
  pub links : ℕ

-- What the calls on a directory return, in their order.
pub record DirectoryCalls : Type 0 where
  pub path_err : Option ℕ
  pub open_err : Option ℕ
  pub info : Result ℕ HandleInfo
  pub security : Result ℕ (Option Descriptor)

abbrev pub nil_or : Option ℕ → Result SecurityError (Unit {0})
nil_or none = ok tt
nil_or (some e) = err (system_error e)

abbrev pub is_stable : HandleInfo → Result SecurityError (Unit {0})
is_stable info = if not info.is_directory || info.is_reparse_point then err not_stable else ok tt

unfoldable pub directory_descriptor : DirectoryCalls → Result SecurityError (Option Descriptor)
directory_descriptor c =
    nil_or c.path_err
    >> (nil_or c.open_err >> ((in_system c.info >>= is_stable) >> in_system c.security))

-- The loop over a list, with the check of an entry.
unfoldable pub check_entries :
    (Ace → Result SecurityError (Unit {0})) → List (Result ℕ Ace) → Result SecurityError (Unit {0})
check_entries check [] = ok tt
check_entries check (err e ∷ rest) = err (system_error e)
check_entries check (ok a ∷ rest) = check a >> check_entries check rest

unfoldable pub check_dacl :
    (Ace → Result SecurityError (Unit {0}))
    → Result ℕ (Option (List (Result ℕ Ace)))
    → Result SecurityError (Unit {0})
unfolding check_entries
check_dacl check (err e) = err no_access_control
check_dacl check (ok none) = err no_access_control
check_dacl check (ok (some entries)) = check_entries check entries

unfoldable pub has_trusted_owner : (Sid → Bool) → Result ℕ (Option Sid × Bool) → Bool
has_trusted_owner trusted (err e) = false
has_trusted_owner trusted (ok (none, defaulted)) = false
has_trusted_owner trusted (ok (some sid, defaulted)) = not defaulted && trusted sid

-- For the user: the owner, then the list.
unfoldable pub check_descriptor :
    (Sid → Bool)
    → (Ace → Result SecurityError (Unit {0}))
    → Descriptor
    → Result SecurityError (Unit {0})
unfolding check_dacl has_trusted_owner
check_descriptor trusted check d =
    if not (has_trusted_owner trusted d.owner) then err of_another else check_dacl check d.dacl

-- `validatePrivateSecurity`, `validateCreationSecurity` and `validateCurrentUserSecurity`, by whom
-- they trust and their check of an entry.
unfoldable pub check_security :
    (Sid → Sid → Bool)
    → (Sid → Ace → Result SecurityError (Unit {0}))
    → UserCalls
    → Option Descriptor
    → Result SecurityError (Unit {0})
unfolding current_user_sid check_descriptor
check_security trusted check calls none = err unavailable
check_security trusted check calls (some d) =
    if not d.is_valid
    then err unavailable
    else current_user_sid calls >>= λ me. check_descriptor (trusted me) (check me) d
