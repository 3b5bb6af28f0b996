-- ===== src/LocalGateway/Endpoint/Tests.antt =====
-- localgateway/endpoint_unix.go: a socket and its directory, of the user 501.
use go_toolbelt.Base.{◌≡◌, refl, true, false, some}
use go_toolbelt.Base.Result.{ok, err}
use go_toolbelt.LocalGateway.Endpoint.{
  FileInfo, found, parent_unsafe, validate_endpoint_parent, check_socket, validate_socket,
  socket_identity,
}

abbrev pub socket_info : FileInfo
socket_info = record {
  is_dir = false;
  is_socket = true;
  perm = 384;
  stat = some (record { uid = 501; device = 7; inode = 99 });
}

abbrev pub directory_info : FileInfo
directory_info = record {
  is_dir = true;
  is_socket = false;
  perm = 493;
  stat = some (record { uid = 501; device = 7; inode = 98 });
}

pub socket_valid : validate_socket 501 (found socket_info) ≡ ok tt
unfolding validate_socket check_socket
socket_valid = refl

pub socket_identified : socket_identity (found socket_info) ≡ ok (7, 99)
unfolding socket_identity
socket_identified = refl

pub directory_valid : validate_endpoint_parent 501 (ok directory_info) ≡ ok tt
unfolding validate_endpoint_parent
directory_valid = refl

-- 0o775
group_writes :
    validate_endpoint_parent 501 (ok (record directory_info { perm = 509 })) ≡ err parent_unsafe
unfolding validate_endpoint_parent
group_writes = refl
