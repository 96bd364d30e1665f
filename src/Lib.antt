-- ===== src/Lib.antt =====
-- minecraft-afk-bot: a Bedrock client that joins a server, keeps the chunks around it loaded,
-- respawns when it dies, reconnects when it is dropped, and leaves while an agent parks it.
--
-- How the parts work together. `Load` reads the settings. The connect loop asks the gate to admit a
-- session, runs it, and waits before the next one; while a session runs, a watcher cancels it if the
-- bot is parked. The gate is the reconciler, whose poller asks the agent what to do. A session
-- negotiates a protocol number, dials, spawns, asks for chunks and reads packets, which the
-- respawner may answer. All of them log.
--
-- Which file models what; a name in Go's camel case has its words joined by underscores here.
--   * Liveness: `Respawner` of internal/liveness/respawn.go. `handle` returns the respawner, the two
--     results, and the packets given to the writer, whose errors are a parameter.
--   * Bot/Session: `session` of cmd/bot/main.go, as a list of actions and a result. What the network
--     and the context do is the record `Env`; one turn of the read loop is a `Pass`.
--   * Bot/Backoff, Bot/Loop: `backoff`, `jitter` and `runConnectLoop` of cmd/bot/main.go. What
--     happens around one turn of the loop is the record `Round`.
--   * Bot/System: the same loop, in steps that interleave with those of the gate, the poller and the
--     watcher, where the gate is the reconciler. `Place` says where the loop stands.
--   * Bot/Session/Steps: the same session in steps between its calls of the network and its tests of
--     its context. `Stage` says where it stands, and `Progress` has what it has done. The actions
--     `watch` and `unwatch` are `context.AfterFunc` and its `stop`; the close that the goroutine of
--     `AfterFunc` makes is the event `cancelled`, and a read that it ends the event `interrupted`.
--   * Bot/Threads: the loop of Bot/System with the session of Bot/Session/Steps as its `connect`, as
--     `main` puts them together. The session's context is the one that the watcher cancels.
--   * Bot/Open: the loop of Bot/System on `AlwaysPresent` of internal/presence/gate.go, the gate of a
--     bot that has no agent.
--   * Bot/Main: `main`, `presenceGate` and `redactedURL` of cmd/bot/main.go. What the program finds
--     is the record `Surroundings`; a `Run` is what it has done by some moment.
--   * Presence/Client: `Client` of internal/presence/client.go; HTTP and JSON are the record `Net`
--     and the record `Api` of Presence/Api.
--   * Presence/Streak: `streak` and `classify` of internal/presence/reconciler.go.
--   * Presence/Reconciler: `poll`, `report`, `set`, `Connected` and `tick` of the same file. A
--     channel is a number, and a table says which are closed.
--   * Presence/Gate: `Admit` and `cancelOnPark` of the same file, and internal/presence/gate.go. The
--     state of the threads is the record `World`; a `Step` is what one thread does between two
--     points where another may run, and a run is a list of steps.
--   * Mcproto: internal/mcproto/protocol.go.
--   * Config: internal/config/config.go; an environment is a function on the names of variables.
--     Config/Pattern has the regular expression that the source compiles.
--   * Mcauth: internal/mcauth/token.go. The cache directory is a function from file names to contents,
--     a save is a list of what it does to the directory, and a crash cuts the list off.
--     Mcauth/Sharing lets the saves of several processes interleave. The texts of the errors are in
--     Config/Messages and Mcauth/Messages.
--   * Protocolcheck: cmd/protocolcheck/main.go, a separate command.
--   * Logging: internal/logging/log.go; a stream is the list of its lines.
--   * Gophertunnel: the packets and constants of the module of that name, as parameters.
--   * Prelude: lists, Boolean tests, signed integers, and the text functions of Go's library that
--     the program calls, with their laws. Examples: tests.
--
-- Bounds. A duration is an integer whose sums and doubles wrap around at 64 bits; the theorems on
-- delays bound them by 2 ^ 62 ns, or by the hour that the configuration allows. Numbers are parsed at
-- the width that the code gives. The loops are recursions on the passes, rounds or steps that
-- happen, so a theorem over all lists holds at every moment of a run that does not end. The only
-- fuel is in `itoa`, which prints a number n with fuel n + 1; `itoa-IsNumeral` shows that it prints
-- all of n.
--
-- What is not modelled. Time, except as the durations that a round brings, and with it the time
-- limits of the HTTP client and of the dialer; what the dialer sends. The skin
-- (internal/skin/skin.go) is a copy of another project's package, which a session only passes on to
-- the dialer. Text is the list of the code points of a valid UTF-8 string, so invalid bytes are
-- left out.
pub mod Prelude
pub mod Gophertunnel
pub mod Liveness
pub mod Logging
pub mod Bot
pub mod Mcproto
pub mod Presence
pub mod Config
pub mod Examples
pub mod Mcauth
pub mod Protocolcheck
