-- ===== src/Http.antt =====
-- The HTTP layer of the proxy, src/proxypp/http.
pub mod MessageUtils
pub mod Stream
pub mod Forward
pub mod Fields
pub mod Adapter
pub mod BodyInfo
pub mod RemoteInfo
pub mod RemoteHeader
pub mod Environment
pub mod Session
