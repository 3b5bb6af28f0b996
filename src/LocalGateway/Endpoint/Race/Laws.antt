-- ===== src/LocalGateway/Endpoint/Race/Laws.antt =====
-- localgateway/endpoint_unix.go: what `removeOwnedSocket` cannot destroy, whatever others do meanwhile.
use go_toolbelt.Base.{
  ◌≡◌, ◌⊎◌, inl, inr, refl, sym, subst, ◌∙◌, Bool, true, false, Option, none, some, is_some,
  if◌then◌else◌, arith, Bool-cases,
}
use go_toolbelt.LocalGateway.Endpoint.{Identity}
use go_toolbelt.LocalGateway.Endpoint.Removal.{same_identity}
use go_toolbelt.LocalGateway.Endpoint.Race.{
  Files, move_aside, restore_no_replace, remove_aside, Stage, at_move, at_look, at_remove,
  at_restore, at_end, decide, System, Call, moves, not_moved, looks, look_fails, removes,
  not_removed, looks_back, look_back_fails, restores, not_restored, calls, others, Reach, start,
  later,
}

-- Before the move nothing is aside, and what is to be removed is the expected file.
abbrev pub IsAt : Identity → Stage → Option Identity → Type 0
IsAt expected at_move o = o ≡ none
IsAt expected at_remove o = o ≡ some expected
IsAt expected _ o = Unit {0}

same_identity_eq :
    (a b : Identity) → same_identity a b ≡ true → ◌≡◌ {A = Option Identity} (some a) (some b)
same_identity_eq (d, i) (d', i') h = ground (arith, h)

decide-IsAt : (expected : Identity) (o : Option Identity) → IsAt expected (decide expected o) o
unfolding decide
decide-IsAt expected none = tt
decide-IsAt expected (some actual) = elim (Bool-cases (same_identity actual expected)) [
  | inl e ↦ rw (e, decide) (same_identity_eq actual expected e)
  | inr e ↦ rw (e, decide) tt
]

looking-IsAt :
    (expected : Identity) (b : Bool) (o : Option Identity)
    → IsAt expected (if b then at_look else at_end) o
looking-IsAt expected true o = tt
looking-IsAt expected false o = tt

restoring-IsAt :
    (expected : Identity) (b : Bool) (o : Option Identity)
    → IsAt expected (if b then at_end else at_restore) o
restoring-IsAt expected true o = tt
restoring-IsAt expected false o = tt

Call-IsAt :
    (expected : Identity) (s t : System)
    → Call expected s t
    → IsAt expected s.stage s.files.aside
    → IsAt expected t.stage t.files.aside
Call-IsAt expected s _ (moves p) v =
    looking-IsAt expected (is_some s.files.endpoint) (move_aside s.files).aside
Call-IsAt expected s _ (not_moved p) v = tt
Call-IsAt expected s _ (looks p) v = decide-IsAt expected s.files.aside
Call-IsAt expected s _ (look_fails p) v = tt
Call-IsAt expected s _ (removes p) v = tt
Call-IsAt expected s _ (not_removed p) v = tt
Call-IsAt expected s _ (looks_back p) v =
    restoring-IsAt expected (is_some s.files.endpoint) s.files.aside
Call-IsAt expected s _ (look_back_fails p) v = tt
Call-IsAt expected s _ (restores p) v = tt
Call-IsAt expected s _ (not_restored p) v = tt

Reach-IsAt :
    (expected : Identity) (s : System) → Reach expected s → IsAt expected s.stage s.files.aside
Reach-IsAt expected _ (start there) = refl
Reach-IsAt expected _ (later {s} {t} r (calls c)) =
    Call-IsAt expected s t c (Reach-IsAt expected s r)
Reach-IsAt expected _ (later {s} r (others now)) = Reach-IsAt expected s r

-- A file is at the endpoint or aside.
abbrev pub IsThere : Identity → Files → Type 0
IsThere f d = (d.endpoint ≡ some f) ⊎ (d.aside ≡ some f)

move_aside_keeps :
    (d : Files) (f : Identity) → d.aside ≡ none → IsThere f d → IsThere f (move_aside d)
unfolding move_aside
move_aside_keeps d f e h = ground arith

restore_keeps : (d : Files) (f : Identity) → IsThere f d → IsThere f (restore_no_replace d)
unfolding restore_no_replace
restore_keeps d f h = ground arith

remove_aside_keeps :
    (expected : Identity) (d : Files) (f : Identity)
    → d.aside ≡ some expected
    → IsThere f d
    → IsThere f (remove_aside d) ⊎ (f ≡ expected)
unfolding remove_aside
remove_aside_keeps expected d f e (inl h) = inl (inl h)
remove_aside_keeps expected d f e (inr h) = inr (let g = sym h ∙ e in cc)

-- Whatever other processes do to the endpoint meanwhile, no call of `removeOwnedSocket` makes a file
-- disappear, by removing it or by moving another over it, but the one with the identity that is
-- expected.
pub removal_destroys_only :
    (expected : Identity) (s t : System) (f : Identity)
    → Reach expected s
    → Call expected s t
    → IsThere f s.files
    → IsThere f t.files ⊎ (f ≡ expected)
removal_destroys_only expected s _ f r (moves p) h = inl (
    move_aside_keeps s.files f
      (subst (λ x. IsAt expected x s.files.aside) p (Reach-IsAt expected s r)) h)
removal_destroys_only expected s _ f r (not_moved p) h = inl h
removal_destroys_only expected s _ f r (looks p) h = inl h
removal_destroys_only expected s _ f r (look_fails p) h = inl h
removal_destroys_only expected s _ f r (removes p) h =
    remove_aside_keeps expected s.files f
      (subst (λ x. IsAt expected x s.files.aside) p (Reach-IsAt expected s r)) h
removal_destroys_only expected s _ f r (not_removed p) h = inl h
removal_destroys_only expected s _ f r (looks_back p) h = inl h
removal_destroys_only expected s _ f r (look_back_fails p) h = inl h
removal_destroys_only expected s _ f r (restores p) h = inl (restore_keeps s.files f h)
removal_destroys_only expected s _ f r (not_restored p) h = inl h
