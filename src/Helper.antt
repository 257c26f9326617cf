-- ===== src/Helper.antt =====
-- src/proxypp/helper.
pub mod Attempt
pub mod Json
pub mod Schema
pub mod Files
