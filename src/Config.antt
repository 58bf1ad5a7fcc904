-- ===== src/Config.antt =====
-- The MQTT settings of docs/eclipse/src/param.c: the file of "key=value" lines and the start values.
pub mod Lines
pub mod Print
pub mod Init
pub mod Bounds
