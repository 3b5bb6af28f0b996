-- ===== src/Acl/Laws.antt =====
-- privatedir/privatedir_windows.go and processlock/lock_windows.go: when the checks of a security
-- descriptor succeed, and how those of the two packages compare.
use go_toolbelt.Base.{
  ℕ, ◌≡◌, ◌↔◌, inl, inr, refl, Bool, true, false, List, [], ◌∷◌, Option, none, some, Bool-cases,
}
use go_toolbelt.Base.Result.{Result, ok, err, then-eq-ok, bind-eq-ok}
use go_toolbelt.Acl.{
  Sid, Ace, Descriptor, SecurityError, UserCalls, current_user_sid, check_entries, check_dacl,
  has_trusted_owner, check_descriptor, check_security,
}

-- Every entry of a list can be read and has a property.
abbrev pub AllEntries : (Ace → Type 0) → List (Result ℕ Ace) → Type 0
AllEntries P [] = Unit {0}
AllEntries P (err e ∷ rest) = ⊥
AllEntries P (ok a ∷ rest) = P a × AllEntries P rest

-- A descriptor whose owner, which is no default, is trusted, and whose list is there.
abbrev pub IsAccepted : (Sid → Bool) → (Ace → Type 0) → Option Descriptor → Type 0
IsAccepted trusted P none = ⊥
IsAccepted trusted P (some d) =
    (d.is_valid ≡ true)
    × ((owner : Sid) × (d.owner ≡ ok (some owner, false)) × (trusted owner ≡ true))
    × ((entries : List (Result ℕ Ace)) × (d.dacl ≡ ok (some entries)) × AllEntries P entries)

module _ (trusted : Sid → Bool) (check : Ace → Result SecurityError (Unit {0}))
    (P : Ace → Type 0) where
  check_entries_sound :
      ((a : Ace) → check a ≡ ok tt → P a)
      → (entries : List (Result ℕ Ace)) → check_entries check entries ≡ ok tt
      → AllEntries P entries
  unfolding check_entries
  check_entries_sound sound [] h = tt
  check_entries_sound sound (err e ∷ rest) h = absurd cc
  check_entries_sound sound (ok a ∷ rest) h =
      let (first, others) = then-eq-ok (check a) (check_entries check rest) h in
      (sound a first, check_entries_sound sound rest others)

  check_entries_whole :
      ((a : Ace) → P a → check a ≡ ok tt)
      → (entries : List (Result ℕ Ace)) → AllEntries P entries
      → check_entries check entries ≡ ok tt
  unfolding check_entries
  check_entries_whole whole [] v = refl
  check_entries_whole whole (err e ∷ rest) v = absurd v
  check_entries_whole whole (ok a ∷ rest) (p, v) =
      rw (whole a p, check_entries) (check_entries_whole whole rest v)

  check_dacl_sound :
      ((a : Ace) → check a ≡ ok tt → P a)
      → (l : Result ℕ (Option (List (Result ℕ Ace)))) → check_dacl check l ≡ ok tt
      → (entries : List (Result ℕ Ace)) × (l ≡ ok (some entries)) × AllEntries P entries
  unfolding check_dacl
  check_dacl_sound sound (err e) h = absurd cc
  check_dacl_sound sound (ok none) h = absurd cc
  check_dacl_sound sound (ok (some entries)) h =
      (entries, refl, check_entries_sound sound entries h)

  has_trusted_owner_sound :
      (o : Result ℕ (Option Sid × Bool))
      → has_trusted_owner trusted o ≡ true
      → (owner : Sid) × (o ≡ ok (some owner, false)) × (trusted owner ≡ true)
  unfolding has_trusted_owner
  has_trusted_owner_sound (err e) h = absurd cc
  has_trusted_owner_sound (ok (none, defaulted)) h = absurd cc
  has_trusted_owner_sound (ok (some owner, true)) h = absurd cc
  has_trusted_owner_sound (ok (some owner, false)) h = (owner, refl, h)

  check_descriptor_sound :
      ((a : Ace) → check a ≡ ok tt → P a)
      → (d : Descriptor) → d.is_valid ≡ true
      → check_descriptor trusted check d ≡ ok tt
      → IsAccepted trusted P (some d)
  unfolding check_descriptor
  check_descriptor_sound sound d v h = elim (Bool-cases (has_trusted_owner trusted d.owner)) [
    | inl e ↦ (
      v,
      has_trusted_owner_sound d.owner e,
      check_dacl_sound sound d.dacl (rw (e, check_descriptor) at h),
    )
    | inr e ↦ absurd (let g = rw (e, check_descriptor) at h in cc)
  ]

  check_descriptor_whole :
      ((a : Ace) → P a → check a ≡ ok tt)
      → (d : Descriptor) → IsAccepted trusted P (some d)
      → check_descriptor trusted check d ≡ ok tt
  unfolding check_descriptor check_dacl has_trusted_owner
  check_descriptor_whole whole d (v, (owner, same, trust), (entries, there, all)) =
      rw (same, there, trust, check_descriptor) (check_entries_whole whole entries all)

module _ (trusted : Sid → Sid → Bool) (check : Sid → Ace → Result SecurityError (Unit {0}))
    (P : Sid → Ace → Type 0) where
  pub check_security_sound :
      ((me : Sid) (a : Ace) → check me a ≡ ok tt → P me a)
      → (calls : UserCalls) (o : Option Descriptor) → check_security trusted check calls o ≡ ok tt
      → (me : Sid) × (current_user_sid calls ≡ ok me) × IsAccepted (trusted me) (P me) o
  unfolding check_security
  check_security_sound sound calls none h = absurd cc
  check_security_sound sound calls (some d) h = elim (Bool-cases d.is_valid) [
    | inl e ↦
        let (me, p, h₁) =
          bind-eq-ok (current_user_sid calls) (λ me. check_descriptor (trusted me) (check me) d)
            (rw (e, check_security) at h) in
        (me, p, check_descriptor_sound (trusted me) (check me) (P me) (sound me) d e h₁)
    | inr e ↦ absurd (let g = rw (e, check_security) at h in cc)
  ]

  check_security_whole :
      ((me : Sid) (a : Ace) → P me a → check me a ≡ ok tt)
      → (calls : UserCalls) (o : Option Descriptor) (me : Sid) → current_user_sid calls ≡ ok me
      → IsAccepted (trusted me) (P me) o
      → check_security trusted check calls o ≡ ok tt
  unfolding check_security
  check_security_whole whole calls none me p v = absurd v
  check_security_whole whole calls (some d) me p v =
      rw (v.0, p, check_security)
        (check_descriptor_whole (trusted me) (check me) (P me) (whole me) d v)

  -- The check of a descriptor succeeds exactly on what is accepted, where that of an entry does.
  pub check_security_iff :
      ((me : Sid) (a : Ace) → (check me a ≡ ok tt) ↔ P me a)
      → (calls : UserCalls) (o : Option Descriptor)
      → (check_security trusted check calls o ≡ ok tt)
        ↔ ((me : Sid) × (current_user_sid calls ≡ ok me) × IsAccepted (trusted me) (P me) o)
  check_security_iff same calls o = (
    check_security_sound (λ me a. (same me a).0) calls o,
    λ (me, p, v). check_security_whole (λ me a. (same me a).1) calls o me p v,
  )
