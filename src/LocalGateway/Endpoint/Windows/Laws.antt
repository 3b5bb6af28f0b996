-- ===== src/LocalGateway/Endpoint/Windows/Laws.antt =====
-- localgateway/endpoint_windows.go: what holds of a client whose connection is returned.
use go_toolbelt.Base.{
  ℕ, ◌≡◌, refl, subst, true, not, List, [], ◌∷◌, Option, none, some, arith, Bool-cases, inl, inr,
}
use go_toolbelt.Base.Result.{Result, ok, err, refuse_if, then-eq-ok, Result-cases}
use go_toolbelt.Acl.{Sid}
use go_toolbelt.LocalGateway.Endpoint.Windows.{
  is_rejection, same_windows_sid, is_usable, check_client, token_result, verify_pipe_client, accept,
  PipeError, ClientCalls, AcceptEnd, no_handle, bad_handle, no_identity, not_impersonated,
  accept_failed, accepted, returned,
}

-- The client has shown that it belongs to the user.
abbrev pub IsClientOf : Option Sid → ClientCalls → Type 0
IsClientOf expected c =
    (c.is_impersonated ≡ true)
    × (c.token_err ≡ none)
    × ((s : Sid) × (c.client ≡ ok (some s)) × (same_windows_sid (some s) expected ≡ true))

check_client_sound :
    (expected : Option Sid) (r : Result ℕ (Option Sid))
    → check_client expected r ≡ ok tt
    → (s : Sid) × (r ≡ ok (some s)) × (same_windows_sid (some s) expected ≡ true)
unfolding check_client
check_client_sound expected (err e) h = absurd cc
check_client_sound expected (ok none) h = absurd cc
check_client_sound expected (ok (some s)) h = (s, refl, ground arith)

token_result-ok : (e : Option ℕ) → token_result e ≡ ok tt → e ≡ none
token_result-ok none h = refl
token_result-ok (some e) h = absurd cc

verify_pipe_client_sound :
    (expected : Option Sid) (c : ClientCalls)
    → verify_pipe_client expected c ≡ ok tt
    → IsClientOf expected c
unfolding verify_pipe_client
verify_pipe_client_sound expected c h =
    let (h₁, r₁) = then-eq-ok (refuse_if (not c.has_handle) no_handle) _ h in
    let (h₂, r₂) = then-eq-ok (refuse_if (not c.is_handle_valid) bad_handle) _ r₁ in
    let (h₃, r₃) = then-eq-ok (refuse_if (not (is_usable expected)) no_identity) _ r₂ in
    let (h₄, r₄) = then-eq-ok (refuse_if (not c.is_impersonated) not_impersonated) _ r₃ in
    let (h₅, r₅) = then-eq-ok (token_result c.token_err) (check_client expected c.client) r₄ in
    (ground (arith, h₄), token_result-ok c.token_err h₅, check_client_sound expected c.client r₅)

-- The connections that stand before one in the rounds, each with a client that was rejected.
abbrev pub RejectedBefore : Option Sid → ℕ → List AcceptEnd → List ℕ → Type 0
RejectedBefore expected conn [] closed = ⊥
RejectedBefore expected conn (accept_failed e ∷ rest) closed = ⊥
RejectedBefore expected conn (accepted other c ∷ rest) [] = other ≡ conn
RejectedBefore expected conn (accepted other c ∷ rest) (k ∷ closed) =
    (k ≡ other)
    × ((e : PipeError) × (verify_pipe_client expected c ≡ err e) × (is_rejection e ≡ true))
    × RejectedBefore expected conn rest closed

-- A connection that `Accept` returns comes from a process of the user; all that came before it were
-- rejected, and they are what `Accept` has closed.
pub accept_verifies_client :
    (expected : Option Sid) (rounds : List AcceptEnd) (conn : ℕ) (c : ClientCalls)
    → (accept expected rounds).0 ≡ returned conn c
    → IsClientOf expected c × RejectedBefore expected conn rounds (accept expected rounds).1
unfolding accept
accept_verifies_client expected [] conn c h = absurd cc
accept_verifies_client expected (accept_failed e ∷ rest) conn c h = absurd cc
accept_verifies_client expected (accepted other p ∷ rest) conn c h =
    elim (Result-cases (verify_pipe_client expected p)) [
      | inl (u, e) ↦
          let g : returned other p ≡ returned conn c = rw (e, accept) at h in
          let same : other ≡ conn = cc in
          let alike : p ≡ c = cc in
          rw (e, accept)
            (subst (IsClientOf expected) alike (verify_pipe_client_sound expected p e), same)
      | inr (e, q) ↦ elim (Bool-cases (is_rejection e)) [
        | inl r ↦
            let g = accept_verifies_client expected rest conn c (rw (q, r, accept) at h) in
            rw (q, r, accept) (g.0, (refl, (e, q, r), g.1))
        | inr r ↦ absurd (let g = rw (q, r, accept) at h in cc)
      ]
    ]
