-- ===== src/NativeHost.antt =====
-- The native messaging host, between the browser extension and the runtime.
pub mod Bridge
pub mod Connect
