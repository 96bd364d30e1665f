-- ===== src/Presence.antt =====
-- internal/presence: the client of the agent, the reconciler of the desired state, and the gates
-- that the connect loop waits on.
pub mod Api
pub mod Client
pub mod Streak
pub mod Reconciler
pub mod Gate
