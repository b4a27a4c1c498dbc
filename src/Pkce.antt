-- ===== src/Pkce.antt =====
-- src/oauth_pkce.cpp. `Base64` has the encoder and the generators, `Challenge` the PKCE challenge and
-- the comparison of states, `Origin` the login origins and `Url` the authorization URL.
pub mod Error
pub mod Base64
pub mod Challenge
pub mod Origin
pub mod Url
pub mod Token
mod Examples
