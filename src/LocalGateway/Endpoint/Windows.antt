-- ===== src/LocalGateway/Endpoint/Windows.antt =====
-- localgateway/endpoint_windows.go: `peerListener.Accept`, `listenLocal` and `dialLocal` with their checks
-- of the other end of a pipe. What the calls of go-winio and golang.org/x/sys/windows return is an
-- argument, and so is whether a name begins as that of a pipe.
pub mod Laws
pub mod Impersonation
mod Tests
use go_toolbelt.Base.{
  ℕ, Bool, true, false, not, ◌&&◌, ◌||◌, List, [], ◌∷◌, Option, none, some, if◌then◌else◌,
}
use go_toolbelt.Base.Result.{Result, ok, err, ◌>>◌, ◌>>=◌, refuse_if}
use go_toolbelt.Acl.{Sid, equals, SecurityError, UserCalls, current_user_sid}

pub data PipeError : Type 0 where
  no_handle bad_handle no_identity : PipeError
  -- those that wrap `errPipeClientRejected`
  not_impersonated no_token client_of_another : PipeError
  server_unavailable no_server_owner server_of_another not_a_pipe : PipeError
  system_error : ℕ → PipeError
  no_user : SecurityError → PipeError

abbrev pub is_rejection : PipeError → Bool
is_rejection not_impersonated = true
is_rejection no_token = true
is_rejection client_of_another = true
is_rejection _ = false

pub same_windows_sid : Option Sid → Option Sid → Bool
same_windows_sid (some l) (some r) = l.is_valid && r.is_valid && equals l r
same_windows_sid _ _ = false

abbrev pub is_usable : Option Sid → Bool
is_usable none = false
is_usable (some s) = s.is_valid

-- What the calls on the client of a pipe return, in their order.
pub record ClientCalls : Type 0 where
  pub has_handle : Bool
  pub is_handle_valid : Bool
  pub is_impersonated : Bool
  pub token_err : Option ℕ
  pub client : Result ℕ (Option Sid)

pub check_client : Option Sid → Result ℕ (Option Sid) → Result PipeError (Unit {0})
unfolding same_windows_sid
check_client expected (err e) = err (system_error e)
check_client expected (ok client) =
    if not (is_usable client)
    then err no_identity
    else if not (same_windows_sid client expected)
    then err client_of_another
    else ok tt

abbrev pub token_result : Option ℕ → Result PipeError (Unit {0})
token_result none = ok tt
token_result (some e) = err no_token

pub verify_pipe_client : Option Sid → ClientCalls → Result PipeError (Unit {0})
unfolding check_client
verify_pipe_client expected c =
    refuse_if (not c.has_handle) no_handle
    >> (refuse_if (not c.is_handle_valid) bad_handle
        >> (refuse_if (not (is_usable expected)) no_identity
            >> (refuse_if (not c.is_impersonated) not_impersonated
                >> (token_result c.token_err >> check_client expected c.client))))

-- One `Accept` of the pipe: an error, or a connection with a number.
pub data AcceptEnd : Type 0 where
  accept_failed : ℕ → AcceptEnd
  accepted : ℕ → ClientCalls → AcceptEnd

-- What the loop returns, or that it goes on waiting where the list of rounds is at its end.
pub data Accepting : Type 0 where
  waits : Accepting
  refused : ℕ → Accepting
  not_verified : PipeError → Accepting
  returned : ℕ → ClientCalls → Accepting

abbrev pub go_on : ℕ → PipeError → Accepting × List ℕ → Accepting × List ℕ
go_on conn e (a, closed) =
    (if is_rejection e then a else not_verified e, conn ∷ (if is_rejection e then closed else []))

-- The result of `Accept`, and the connections that it has closed.
pub accept : Option Sid → List AcceptEnd → Accepting × List ℕ
unfolding verify_pipe_client
accept expected [] = (waits, [])
accept expected (accept_failed e ∷ rest) = (refused e, [])
accept expected (accepted conn c ∷ rest) =
    let later = accept expected rest in
    elim (verify_pipe_client expected c) [
      | ok u ↦ (returned conn c, [])
      | err e ↦ go_on conn e later
    ]

-- `securityDescriptorForUser`, by the user that the descriptor names.
pub descriptor_for_user : Option Sid → Result PipeError ℕ
descriptor_for_user none = err no_identity
descriptor_for_user (some s) = if not s.is_valid then err no_identity else ok s.id

abbrev pub of_user : Result SecurityError Sid → Result PipeError Sid
of_user (ok s) = ok s
of_user (err e) = err (no_user e)

abbrev pub nil_or : Option ℕ → Result PipeError (Unit {0})
nil_or none = ok tt
nil_or (some e) = err (system_error e)

-- The user whose clients the listener accepts; only that user is given access.
pub listen_local : Bool → UserCalls → Option ℕ → Result PipeError Sid
unfolding descriptor_for_user
listen_local is_pipe user listen_err =
    refuse_if (not is_pipe) not_a_pipe
    >> (of_user (current_user_sid user) >>= λ me.
        descriptor_for_user (some me) >>= λ d. nil_or listen_err >> ok me)

-- What the calls on the server of a pipe return.
pub record ServerCalls : Type 0 where
  pub has_handle : Bool
  -- whether the descriptor is there and valid
  pub is_available : Bool
  -- the owner, and whether it is a default
  pub owner : Result ℕ (Option Sid × Bool)
  pub user : UserCalls

pub check_server : UserCalls → Result ℕ (Option Sid × Bool) → Result PipeError (Unit {0})
unfolding same_windows_sid
check_server user (err e) = err no_server_owner
check_server user (ok (owner, defaulted)) =
    if defaulted || not (is_usable owner)
    then err no_server_owner
    else elim (current_user_sid user) [
      | err e ↦ err server_of_another
      | ok me ↦ if same_windows_sid owner (some me) then ok tt else err server_of_another
    ]

pub verify_pipe_server : ServerCalls → Result PipeError (Unit {0})
unfolding check_server
verify_pipe_server c =
    refuse_if (not c.has_handle) no_handle
    >> (refuse_if (not c.is_available) server_unavailable >> check_server c.user c.owner)

-- `dialLocal`; where the server is not verified it closes the connection.
pub dial_local : Bool → Option ℕ → ServerCalls → Result PipeError (Unit {0})
unfolding verify_pipe_server
dial_local is_pipe dial_err c =
    refuse_if (not is_pipe) not_a_pipe >> (nil_or dial_err >> verify_pipe_server c)
