-- ===== src/Proxy.antt =====
-- The proxy of proxylab: its buffer of connections, sbuf.c.
pub mod Sbuf
mod Tests
