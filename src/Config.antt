-- ===== src/Config.antt =====
-- engine/src/openrois/engine/config.py: the settings of an adapter or a gateway.
pub mod Load
pub mod Precedence
mod Tests
