-- ===== src/Agent.antt =====
-- The site agent (internal/agent, internal/control/client.go, internal/control/directive_state.go).
pub mod Phases
pub mod Cache
pub mod Directives
