-- ===== src/LocalGateway/Client.antt =====
-- localgateway/gateway.go: `ClientConfig`, `NewClient` and `Dial`. What `dialLocal` answers within a
-- timeout is an argument.
mod Tests
use go_toolbelt.Base.{
  ℕ, ◌*◌, ◌≡◌, refl, Bool, true, false, not, ◌&&◌, String, Option, none, some, if◌then◌else◌, arith,
  ◌<◌, ◌≤◌,
}
use go_toolbelt.Base.Int.{ℤ, pos, negsuc, is_nonpositive}
use go_toolbelt.LocalGateway.Config.{second}

pub record ClientConfig : Type 0 where
  pub dial_timeout : ℤ
  pub response_header_timeout : ℤ
  pub idle_conn_timeout : ℤ
  pub max_idle_conns : ℤ

-- What the transport of the client is made with; it speaks HTTP/1 and knows one host.
pub record Transport : Type 0 where
  pub endpoint : String
  pub dial_timeout : ℤ
  pub response_header_timeout : ℤ
  pub idle_conn_timeout : ℤ
  pub max_idle_conns : ℤ
  pub max_idle_conns_per_host : ℤ
  pub force_attempt_http2 : Bool

abbrev positive_or : ℤ → ℤ → ℤ
positive_or default n = if is_nonpositive n then default else n

pub new_client : String → ClientConfig → Transport
new_client endpoint cfg = record {
  endpoint = endpoint;
  dial_timeout = positive_or (pos second) cfg.dial_timeout;
  response_header_timeout = cfg.response_header_timeout;
  idle_conn_timeout = positive_or (pos (30 * second)) cfg.idle_conn_timeout;
  max_idle_conns = positive_or (pos 8) cfg.max_idle_conns;
  max_idle_conns_per_host = positive_or (pos 8) cfg.max_idle_conns;
  force_attempt_http2 = false;
}

-- `dialLocal`, by the time it is given; none is the caller's context alone.
module _ {Conn : Type 0} (dial_local : Option ℤ → String → Conn) where
  -- `DialContext` of the transport: the network and the address that it is asked for do not matter.
  pub dial_context : Transport → String → String → Conn
  dial_context t network address = dial_local (some t.dial_timeout) t.endpoint

  pub dial : String → Conn
  dial endpoint = dial_local none endpoint

-- The client always gives up dialing, closes its idle connections at some time, and keeps a bounded
-- number of them: the three numbers of its transport are positive, whatever the configuration.
new_client_bounded :
    (endpoint : String) (cfg : ClientConfig)
    → let t = new_client endpoint cfg in
      (is_nonpositive t.dial_timeout ≡ false)
      × (is_nonpositive t.idle_conn_timeout ≡ false)
      × (is_nonpositive t.max_idle_conns ≡ false)
      × (t.max_idle_conns_per_host ≡ t.max_idle_conns)
unfolding new_client
new_client_bounded endpoint cfg = ground arith
