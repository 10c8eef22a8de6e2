-- ===== src/Util.antt =====
-- src/util: the thread-safe queue, the logger, and sockets.
pub mod SafeQueue
pub mod Logging
pub mod Os
pub mod Socket
pub mod AddressInfo
pub mod Endpoint
