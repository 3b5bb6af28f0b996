-- ===== src/LocalGateway/Endpoint/Windows/Impersonation.antt =====
-- localgateway/endpoint_windows.go: `verifyCurrentUserPipeClient` with the operating system's thread
-- that it changes, and `revertPipeClientImpersonation`. The thread is locked to the goroutine and made
-- to act as the client of the pipe; a deferred call ends both, and panics if it cannot.
use go_toolbelt.Base.{
  ℕ, ◌+◌, ◌-◌, ◌≡◌, refl, sym, Bool, true, false, not, inl, inr, Bool-cases, Option, none, some,
  if◌then◌else◌,
}
use go_toolbelt.Base.Result.{Result, Result-cases, ok, err, ◌>>◌, refuse_if}
use go_toolbelt.Acl.{Sid}
use go_toolbelt.LocalGateway.Endpoint.Windows.{
  PipeError, no_handle, bad_handle, no_identity, not_impersonated, no_token, is_usable, ClientCalls,
  check_client, verify_pipe_client, token_result,
}

-- Whether the goroutine keeps the thread, whether it acts as the client, and the tokens that are open.
pub record Thread : Type 0 where
  pub is_locked : Bool
  pub is_client : Bool
  pub tokens : ℕ

abbrev pub clean : Thread
clean = record { is_locked = false; is_client = false; tokens = 0 }

pub data Ended : Type 0 where
  returned : Result PipeError (Unit {0}) → Thread → Ended
  panicked : Thread → Ended

-- `revertPipeClientImpersonation`, behind a result, by the error of `RevertToSelf`.
unfoldable pub revert : Option ℕ → Result PipeError (Unit {0}) → Thread → Ended
revert none r t = returned r (record t { is_client = false; is_locked = false })
revert (some e) r t = panicked t

-- With the token of the thread, or without; the token is closed before the thread is reverted.
unfoldable pub with_token : Option ℕ → Option ℕ → Option Sid → ClientCalls → Thread → Ended
unfolding revert
with_token revert_err (some e) expected c t = revert revert_err (err no_token) t
with_token revert_err none expected c t =
    let opened = record t { tokens = t.tokens + 1 } in
    let result = check_client expected c.client in
    revert revert_err result (record opened { tokens = opened.tokens - 1 })

unfoldable pub impersonate : Option ℕ → Option Sid → ClientCalls → Thread → Ended
unfolding with_token
impersonate revert_err expected c t =
    let locked = record t { is_locked = true } in
    if not c.is_impersonated
    then returned (err not_impersonated) (record locked { is_locked = false })
    else with_token revert_err c.token_err expected c (record locked { is_client = true })

-- The checks that come before.
unfoldable pub guards : Option Sid → ClientCalls → Result PipeError (Unit {0})
guards expected c =
    refuse_if (not c.has_handle) no_handle
    >> (refuse_if (not c.is_handle_valid) bad_handle
        >> refuse_if (not (is_usable expected)) no_identity)

unfoldable pub verify_thread : Option ℕ → Option Sid → ClientCalls → Thread → Ended
unfolding guards impersonate
verify_thread revert_err expected c t = elim (guards expected c) [
  | err e ↦ returned (err e) t
  | ok u ↦ impersonate revert_err expected c t
]

-- What a call may end in.
abbrev pub IsSafe : Option ℕ → Option Sid → ClientCalls → Ended → Type 0
IsSafe revert_err expected c (returned r t) = (r ≡ verify_pipe_client expected c) × (t ≡ clean)
IsSafe revert_err expected c (panicked t) = (e : ℕ) × (revert_err ≡ some e)

revert-IsSafe :
    (revert_err : Option ℕ) (expected : Option Sid) (c : ClientCalls)
    (r : Result PipeError (Unit {0}))
    → r ≡ verify_pipe_client expected c
    → IsSafe revert_err expected c
        (revert revert_err r (record { is_locked = true; is_client = true; tokens = 0 }))
unfolding revert
revert-IsSafe none expected c r h = (h, refl)
revert-IsSafe (some e) expected c r h = (e, refl)

with_token-IsSafe :
    (revert_err tok : Option ℕ) (expected : Option Sid) (c : ClientCalls)
    → (token_result tok >> check_client expected c.client) ≡ verify_pipe_client expected c
    → IsSafe revert_err expected c (
        with_token revert_err tok expected c
          (record { is_locked = true; is_client = true; tokens = 0 }))
unfolding with_token
with_token-IsSafe revert_err (some e) expected c h =
    revert-IsSafe revert_err expected c (err no_token) h
with_token-IsSafe revert_err none expected c h =
    revert-IsSafe revert_err expected c (check_client expected c.client) h

then_assoc :
    (a b c d : Result PipeError (Unit {0})) → (a >> (b >> (c >> d))) ≡ ((a >> (b >> c)) >> d)
then_assoc (err e) b c d = refl
then_assoc (ok u) (err e) c d = refl
then_assoc (ok u) (ok v) (err e) d = refl
then_assoc (ok u) (ok v) (ok w) d = refl

-- Behind the guards.
abbrev rest_of : Option Sid → ClientCalls → Result PipeError (Unit {0})
rest_of expected c =
    refuse_if (not c.is_impersonated) not_impersonated
    >> (token_result c.token_err >> check_client expected c.client)

verify_pipe_client-guards :
    (expected : Option Sid) (c : ClientCalls)
    → verify_pipe_client expected c ≡ (guards expected c >> rest_of expected c)
unfolding verify_pipe_client guards
verify_pipe_client-guards expected c =
    then_assoc (refuse_if (not c.has_handle) no_handle)
      (refuse_if (not c.is_handle_valid) bad_handle)
      (refuse_if (not (is_usable expected)) no_identity) (rest_of expected c)

impersonate-IsSafe :
    (revert_err : Option ℕ) (expected : Option Sid) (c : ClientCalls)
    → rest_of expected c ≡ verify_pipe_client expected c
    → IsSafe revert_err expected c (impersonate revert_err expected c clean)
unfolding impersonate
impersonate-IsSafe revert_err expected c h = elim (Bool-cases c.is_impersonated) [
  | inr i ↦ simp (i, impersonate) (simp i at h, refl)
  | inl i ↦
      simp (i, impersonate) (with_token-IsSafe revert_err c.token_err expected c (simp i at h))
]

-- The goroutine never goes on as the client: whatever the calls meet, `verifyCurrentUserPipeClient`
-- either returns, with the result that its checks give, on a thread that is unlocked, reverted and
-- without an open token, or it panics, which is only where `RevertToSelf` fails.
pub verify_thread-IsSafe :
    (revert_err : Option ℕ) (expected : Option Sid) (c : ClientCalls)
    → IsSafe revert_err expected c (verify_thread revert_err expected c clean)
unfolding verify_thread
verify_thread-IsSafe revert_err expected c =
    let whole = sym (verify_pipe_client-guards expected c) in
    elim (Result-cases (guards expected c)) [
      | inr (e, p) ↦ rw (p, verify_thread) (rw p at whole, refl)
      | inl (u, p) ↦
          rw (p, verify_thread) (impersonate-IsSafe revert_err expected c (rw p at whole))
    ]
