-- ===== src/Proxy.antt =====
-- The proxies of server/proxy: the SOCKS5 server and what all proxies check before they forward.
pub mod Talk
pub mod Socks5
pub mod Forward
mod Tests
