-- ===== src/LocalGateway/Client/Tests.antt =====
-- localgateway/gateway.go: a client with a configuration that is empty.
use go_toolbelt.Base.{◌≡◌, refl, String, Option, some}
use go_toolbelt.Base.Int.{ℤ, pos}
use go_toolbelt.LocalGateway.Config.{second}
use go_toolbelt.LocalGateway.Client.{ClientConfig, new_client, dial_context}

abbrev empty : ClientConfig
empty = record {
  dial_timeout = pos 0;
  response_header_timeout = pos 0;
  idle_conn_timeout = pos 0;
  max_idle_conns = pos 0;
}

abbrev dial_local : Option ℤ → String → Option ℤ × String
dial_local timeout endpoint = (timeout, endpoint)

address_ignored :
    dial_context dial_local (new_client "/run/gateway.sock" empty) "tcp" "example.com:80"
    ≡ (some (pos second), "/run/gateway.sock")
unfolding dial_context new_client
address_ignored = refl
