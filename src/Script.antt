-- ===== src/Script.antt =====
-- The script runtime, src/proxypp/script/qjs.
pub mod Quickjs
pub mod Ledger
pub mod Value
pub mod ObjectBuilder
pub mod Runtime
pub mod Context
pub mod Evaluator
pub mod Owning
pub mod Objects
