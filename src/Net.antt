-- ===== src/Net.antt =====
-- include/net/ and src/net/: the event loop and what runs in it.
pub mod TimerQueue
pub mod Channel
pub mod Connection
pub mod EventLoop
pub mod Server
pub mod Acceptor
pub mod Reactor
pub mod InetAddr
