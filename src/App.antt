-- ===== src/App.antt =====
-- The program: src/app/main.cpp.
pub mod ReadyFile
pub mod Startup
