-- ===== src/Proxy.antt =====
-- internal/proxy: the proxy server, its body capture, certificates and transparent mode.
pub mod X509
pub mod Authority
pub mod HostCertificate
pub mod Certificates
pub mod CaStore
pub mod Transparent
pub mod OriginalDst
pub mod Body
pub mod Sni
pub mod Handlers
pub mod Session
pub mod Concurrent
pub mod Start
pub mod Inner
pub mod Accepting
