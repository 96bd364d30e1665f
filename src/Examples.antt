-- ===== src/Examples.antt =====
-- The tests: the theorems at concrete inputs, by the part of the program.
mod Respawn
mod Reconnect
mod Sessions
mod Pongs
mod Agent
mod Gates
mod Settings
mod Lines
mod Tokens
mod Startup
mod Threads
mod Played
mod Open
mod Checks
