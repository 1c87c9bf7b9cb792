-- ===== src/Routing.antt =====
-- The routing of a request to an outbound: node/rules.go, `CompiledRule.Match` and its matchers, and
-- node/dispatcher.go, `Dispatcher.Resolve`. A Go string is the list of its bytes.
pub mod Match
pub mod Matchers
pub mod Satisfies
pub mod Decision
pub mod Dispatch
pub mod FirstMatch
pub mod Answers
mod Tests
