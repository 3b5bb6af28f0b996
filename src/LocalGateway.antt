-- ===== src/LocalGateway.antt =====
-- localgateway: the admission listener (admission.go), the handler gate, the server and the client
-- (gateway.go), and the endpoints (endpoint_unix.go, endpoint_windows.go, peer_linux.go).
pub mod Cond
pub mod Admission
pub mod Gate
pub mod Config
pub mod Server
pub mod Client
pub mod Echo
pub mod Endpoint
