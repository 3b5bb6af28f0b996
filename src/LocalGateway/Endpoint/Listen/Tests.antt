-- ===== src/LocalGateway/Endpoint/Listen/Tests.antt =====
-- localgateway/endpoint_unix.go: an endpoint that is listened on, and two peers.
use go_toolbelt.Base.{ℕ, ◌≡◌, refl, true, List, [], ◌∷◌, none, some, arith}
use go_toolbelt.Base.Result.{ok}
use go_toolbelt.LocalGateway.Endpoint.{found}
use go_toolbelt.LocalGateway.Endpoint.Tests.{
  socket_info, directory_info, socket_valid, socket_identified, directory_valid,
}
use go_toolbelt.LocalGateway.Endpoint.Listen.{
  PeerCalls, AcceptEnd, accepted, returned, accept, peer_allowed, is_user, ListenCalls, listening,
  prepare, protect, listen_end, listen_prepared, listen_local,
}

abbrev peer_of : ℕ → PeerCalls
peer_of uid = record {
  is_unix = true;
  syscall_err = none;
  control_err = none;
  credential = ok (some uid);
}

abbrev rounds : List AcceptEnd
rounds = accepted 1 (peer_of 0) ∷ accepted 2 (peer_of 501) ∷ []

second_returned : (accept 501 rounds).0 ≡ returned 2 (peer_of 501)
unfolding accept peer_allowed is_user
second_returned = refl

abbrev fresh : ListenCalls
fresh = record {
  is_abs = true;
  parent = ok directory_info;
  stale = ok tt;
  listen_err = none;
  is_unix_listener = true;
  chmod_err = none;
  validated = found socket_info;
  identified = found socket_info;
}

fresh_listens : listen_local 501 fresh ≡ (ok (7, 99), listening)
unfolding listen_local listen_prepared listen_end prepare protect
fresh_listens = ground (arith, socket_valid, socket_identified, directory_valid)
