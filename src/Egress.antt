-- ===== src/Egress.antt =====
-- `TCPEgress`: its connections, and its listeners.
pub mod Connection
pub mod Listener
pub mod Tcp
