-- ===== src/Examples.antt =====
-- Concrete instances of what the model takes as parameters, and the theorems at concrete inputs.
pub mod Wire
mod Forwarding
mod Ending
pub mod Headers
pub mod Scripts
pub mod Proxy
mod Messages
mod Rules
mod Conversion
mod Exchanges
mod Startup
