-- ===== src/Net.antt =====
-- net/: the network layer, a driver below it and the connection above it.
pub mod Network
pub mod Tcp
pub mod Ne2000
mod Tests
