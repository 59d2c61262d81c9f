-- ===== src/Examples.antt =====
-- Each theorem with hypotheses applied to concrete data, and tests of the definitions.
mod Handlers
mod Iptables
mod Api
mod Main
mod Output
mod Authority
mod Certificates
mod Inner
mod Session
mod Routes
mod Hello
mod Transparent
mod Store
mod Concurrent
mod Capture
mod Proxy
