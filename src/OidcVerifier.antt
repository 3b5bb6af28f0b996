-- ===== src/OidcVerifier.antt =====
-- oidcverifier/oidcverifier.go. Settings: `New` and the checks of values and URLs; Discovery:
-- `Discover`; Lifecycle: `Start`, `Stop`, `Ready`, `Metadata`; Tokens: `Verify`; Keys: the key set.
-- net/url, net/http, mime, the JOSE library and encoding/json are parameters.
pub mod Settings
pub mod Discovery
pub mod Lifecycle
pub mod Tokens
pub mod Keys
