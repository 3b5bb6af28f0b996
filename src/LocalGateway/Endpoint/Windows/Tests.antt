-- ===== src/LocalGateway/Endpoint/Windows/Tests.antt =====
-- localgateway/endpoint_windows.go: a client of another user, which is rejected, and one of the
-- user's, where the thread can be reverted and where it cannot.
use go_toolbelt.Base.{◌≡◌, refl, true, false, List, [], ◌∷◌, none, some}
use go_toolbelt.Base.Result.{ok, err}
use go_toolbelt.Acl.{Sid, current_user_sid, user_sid}
use go_toolbelt.Acl.Tests.{me, other, user}
use go_toolbelt.LocalGateway.Endpoint.Windows.{
  ClientCalls, ServerCalls, AcceptEnd, accepted, returned, server_of_another, verify_pipe_client,
  check_client, same_windows_sid, accept, listen_local, descriptor_for_user, verify_pipe_server,
  check_server, dial_local,
}
use go_toolbelt.LocalGateway.Endpoint.Windows.Impersonation.{
  clean, returned as ended, panicked, revert, with_token, impersonate, guards, verify_thread,
  IsSafe, verify_thread-IsSafe,
}
use go_toolbelt.LocalGateway.Endpoint.Windows.Laws.{
  IsClientOf, RejectedBefore, accept_verifies_client,
}

abbrev client : Sid → ClientCalls
client sid = record {
  has_handle = true;
  is_handle_valid = true;
  is_impersonated = true;
  token_err = none;
  client = ok (some sid);
}

abbrev rounds : List AcceptEnd
rounds = accepted 1 (client other) ∷ accepted 2 (client me) ∷ []

second_accepted : (accept (some me) rounds).0 ≡ returned 2 (client me)
unfolding accept verify_pipe_client check_client same_windows_sid
second_accepted = refl

listens : listen_local true user none ≡ ok me
unfolding listen_local descriptor_for_user current_user_sid user_sid
listens = refl

abbrev server : ServerCalls
server = record {
  has_handle = true;
  is_available = true;
  owner = ok (some other, false);
  user = user;
}

stranger_refused : dial_local true none server ≡ err server_of_another
unfolding dial_local verify_pipe_server check_server same_windows_sid current_user_sid user_sid
stranger_refused = refl

accept_verifies_client_example :
    IsClientOf (some me) (client me) × RejectedBefore (some me) 2 rounds (accept (some me) rounds).1
accept_verifies_client_example =
    accept_verifies_client (some me) rounds 2 (client me) second_accepted

reverted :
    (verify_thread none (some me) (client me) clean ≡ ended (ok tt) clean)
    × (verify_thread (some 5) (some me) (client me) clean
        ≡ panicked (record { is_locked = true; is_client = true; tokens = 0 }))
unfolding verify_thread guards impersonate with_token revert check_client same_windows_sid
reverted = (refl, refl)

verify_thread-IsSafe_example :
    IsSafe (some 5) (some me) (client me) (verify_thread (some 5) (some me) (client me) clean)
verify_thread-IsSafe_example = verify_thread-IsSafe (some 5) (some me) (client me)
