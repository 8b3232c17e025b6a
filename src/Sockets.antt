-- ===== src/Sockets.antt =====
-- How datagrams come in: the sockets that systemd passes, the receive buffers, and what the kernel says of the queue.
pub mod Systemd
pub mod Receive
pub mod Proc
mod Tests
