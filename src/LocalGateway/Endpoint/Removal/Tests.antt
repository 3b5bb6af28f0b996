-- ===== src/LocalGateway/Endpoint/Removal/Tests.antt =====
-- localgateway/endpoint_unix.go: a stale socket, which is removed.
use go_toolbelt.Base.{◌≡◌, arith, none}
use go_toolbelt.Base.Result.{ok}
use go_toolbelt.LocalGateway.Endpoint.{found, not_exist, Identity, socket_identity, IsPrivateSocket}
use go_toolbelt.LocalGateway.Endpoint.Tests.{socket_info, socket_valid, socket_identified}
use go_toolbelt.LocalGateway.Endpoint.Removal.{
  Calls, renamed, removed, connection_refused, remove_owned_socket, move_aside, check_moved,
  remove_stale_socket, check_stale, identify_stale, dial_stale, after_removal,
}
use go_toolbelt.LocalGateway.Endpoint.Removal.Laws.{remove_stale_socket_only}

abbrev calls : Calls
calls = record {
  name_err = none;
  aside = renamed;
  moved = found socket_info;
  endpoint = not_exist;
  back_err = none;
  remove_err = none;
}

stale_removed :
    (remove_stale_socket 501 (found socket_info) (found socket_info) connection_refused calls).1
    ≡ removed
unfolding remove_stale_socket check_stale identify_stale dial_stale after_removal
    remove_owned_socket move_aside check_moved
stale_removed = ground (arith, socket_valid, socket_identified)

remove_stale_socket_only_example :
    IsPrivateSocket 501 (found socket_info)
    × (connection_refused ≡ connection_refused)
    × (expected : Identity) × (socket_identity (found socket_info) ≡ ok expected)
    × (socket_identity calls.moved ≡ ok expected)
remove_stale_socket_only_example =
    remove_stale_socket_only 501 (found socket_info) (found socket_info) connection_refused calls
      stale_removed
