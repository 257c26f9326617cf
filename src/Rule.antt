-- ===== src/Rule.antt =====
-- The rule engine and the HTTP rules, src/proxypp/rule.
pub mod Model
pub mod Json
pub mod Adapter
pub mod Engine
pub mod Executor
pub mod Apply
pub mod MatchContext
pub mod Injector
pub mod Scripting
pub mod File
