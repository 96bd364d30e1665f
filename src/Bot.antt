-- ===== src/Bot.antt =====
-- cmd/bot/main.go: the reconnect loop, its backoff, and one session on a connection.
pub mod Backoff
pub mod Loop
pub mod Session
pub mod Main
pub mod System
pub mod Threads
pub mod Open
