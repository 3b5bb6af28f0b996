-- ===== src/LocalGateway/Endpoint/Removal/Laws.antt =====
-- localgateway/endpoint_unix.go: what is removed, and when.
use go_toolbelt.Base.{
  ℕ, ◌≡◌, ◌≢◌, refl, sym, ap, ◌∙◌, List, [], ◌∷◌, arith, Bool-cases, Option-cases, inl, inr, ◌⊎◌,
}
use go_toolbelt.Base.Result.{Result, ok, err}
use go_toolbelt.LocalGateway.Endpoint.{
  LstatEnd, not_exist, lstat_failed, found, EndpointError, no_socket, Identity, validate_socket,
  socket_identity, IsPrivateSocket, validate_socket-private, parent_unknown, parent_unsafe,
  socket_not_private, socket_of_another, no_identity, system_error,
}
use go_toolbelt.LocalGateway.Endpoint.Removal.{
  restore_quarantined, same_identity, check_moved, move_aside, remove_owned_socket, after_removal,
  dial_stale, identify_stale, check_stale, remove_stale_socket, RenameEnd, Calls, RemovalError,
  Fate, DialEnd, renamed, nothing_there, rename_failed, untouched, removed, answered,
  connection_refused, dial_failed,
}

restore-keeps : (c : Calls) (l : LstatEnd) → (restore_quarantined c l).1 ≢ removed
unfolding restore_quarantined
restore-keeps c (found info) h = cc
restore-keeps c (lstat_failed e) h = cc
restore-keeps c not_exist h = ground arith

abbrev pub HasRemoved : Identity → Calls → List RemovalError × Fate → Type 0
HasRemoved expected c r =
    (r ≡ ([], removed)) × (c.aside ≡ renamed) × (socket_identity c.moved ≡ ok expected)

abbrev pub HasKept : List RemovalError × Fate → Type 0
HasKept r = (r.0 ≢ []) × (r.1 ≢ removed)

check_moved_ends :
    (expected : Identity) (c : Calls) (r : Result EndpointError Identity)
    → ((r ≡ ok expected) × (check_moved expected c r ≡ ([], removed)))
      ⊎ HasKept (check_moved expected c r)
unfolding check_moved
check_moved_ends expected c (err e) = inr ((λ h. cc), restore-keeps c c.endpoint)
check_moved_ends (d', i') c (ok (d, i)) = elim (Bool-cases (same_identity (d, i) (d', i'))) [
  | inl p ↦
      let same : Path (Result EndpointError Identity) (ok (d, i)) (ok (d', i')) =
        ground (arith, p) in
      rw p (elim (Option-cases c.remove_err) [
        | inl q ↦ rw q (inl (same, refl))
        | inr (e, q) ↦ rw q (inr ((λ h. cc), λ h. cc))
      ])
  | inr p ↦ rw p (inr ((λ h. cc), restore-keeps c c.endpoint))
]

move_aside_ends :
    (expected : Identity) (c : Calls) (a : RenameEnd)
    → c.aside ≡ a
    → HasRemoved expected c (move_aside expected c a)
      ⊎ (((a ≡ nothing_there) × (move_aside expected c a ≡ ([], untouched)))
          ⊎ HasKept (move_aside expected c a))
unfolding move_aside
move_aside_ends expected c nothing_there p = inr (inl (refl, refl))
move_aside_ends expected c (rename_failed e) p = inr (inr ((λ h. cc), λ h. cc))
move_aside_ends expected c renamed p =
    elim (check_moved_ends expected c (socket_identity c.moved)) [
      | inl (same, q) ↦ inl (q, p, same)
      | inr kept ↦ inr (inr kept)
    ]

-- There are three ends: the file was moved aside, had the device and the inode of the socket that is
-- to be removed, and is removed without an error; there was no file, and there is no error; or there
-- is an error, and nothing is removed.
remove_owned_socket_only :
    (expected : Identity) (c : Calls)
    → HasRemoved expected c (remove_owned_socket expected c)
      ⊎ (((c.aside ≡ nothing_there) × (remove_owned_socket expected c ≡ ([], untouched)))
          ⊎ HasKept (remove_owned_socket expected c))
unfolding remove_owned_socket
remove_owned_socket_only expected c = elim (Option-cases c.name_err) [
  | inl p ↦ rw p (move_aside_ends expected c c.aside refl)
  | inr (e, p) ↦ rw p (inr (inr ((λ h. cc), λ h. cc)))
]

removed_identity :
    (expected : Identity) (c : Calls)
    → (remove_owned_socket expected c).1 ≡ removed
    → socket_identity c.moved ≡ ok expected
removed_identity expected c h = elim (remove_owned_socket_only expected c) [
  | inl (r, aside, same) ↦ same
  | inr (inl (p, r)) ↦ absurd (let g : untouched ≡ removed = sym (ap (λ x. x.1) r) ∙ h in cc)
  | inr (inr (errors, kept)) ↦ absurd (kept h)
]

after_removal_fate : (r : List RemovalError × Fate) → (after_removal r).1 ≡ r.1
unfolding after_removal
after_removal_fate ([], f) = refl
after_removal_fate (e ∷ es, f) = refl

dial_stale-removed :
    (expected : Identity) (c : Calls) (d : DialEnd)
    → (dial_stale expected c d).1 ≡ removed
    → (d ≡ connection_refused) × (socket_identity c.moved ≡ ok expected)
unfolding dial_stale
dial_stale-removed expected c answered h = absurd cc
dial_stale-removed expected c (dial_failed e) h = absurd cc
dial_stale-removed expected c connection_refused h =
    let same = after_removal_fate (remove_owned_socket expected c) in
    (refl, removed_identity expected c (sym same ∙ h))

identify_stale-removed :
    (c : Calls) (d : DialEnd) (r : Result EndpointError Identity)
    → (identify_stale c d r).1 ≡ removed
    → (d ≡ connection_refused)
      × (expected : Identity) × (r ≡ ok expected)
      × (socket_identity c.moved ≡ ok expected)
unfolding identify_stale
identify_stale-removed c d (err e) h = absurd cc
identify_stale-removed c d (ok expected) h =
    let g = dial_stale-removed expected c d h in (g.0, expected, refl, g.1)

refused_untouched :
    (l : LstatEnd) (d : DialEnd) (c : Calls) (e : EndpointError)
    → (check_stale l d c (err e)).1 ≡ untouched
unfolding check_stale
refused_untouched l d c no_socket = refl
refused_untouched l d c (parent_unknown e) = refl
refused_untouched l d c parent_unsafe = refl
refused_untouched l d c socket_not_private = refl
refused_untouched l d c socket_of_another = refl
refused_untouched l d c no_identity = refl
refused_untouched l d c (system_error e) = refl

check_stale-removed :
    (l : LstatEnd) (d : DialEnd) (c : Calls) (r : Result EndpointError (Unit {0}))
    → (check_stale l d c r).1 ≡ removed
    → (r ≡ ok tt)
      × (d ≡ connection_refused)
      × (expected : Identity) × (socket_identity l ≡ ok expected)
      × (socket_identity c.moved ≡ ok expected)
unfolding check_stale
check_stale-removed l d c (err e) h = absurd (let g = sym (refused_untouched l d c e) ∙ h in cc)
check_stale-removed l d c (ok u) h =
    let (dialed, expected, before, after) = identify_stale-removed c d (socket_identity l) h in
    (refl, dialed, expected, before, after)

-- An endpoint that is left from before is removed only if it is a private socket of the user, nobody
-- answers there, and what was moved aside has the identity that the second look has seen.
pub remove_stale_socket_only :
    (euid : ℕ) (first second : LstatEnd) (d : DialEnd) (c : Calls)
    → (remove_stale_socket euid first second d c).1 ≡ removed
    → IsPrivateSocket euid first
      × (d ≡ connection_refused)
      × (expected : Identity) × (socket_identity second ≡ ok expected)
      × (socket_identity c.moved ≡ ok expected)
unfolding remove_stale_socket
remove_stale_socket_only euid first second d c h =
    let (valid, dialed, expected, before, after) =
      check_stale-removed second d c (validate_socket euid first) h in
    (validate_socket-private euid first valid, dialed, expected, before, after)
