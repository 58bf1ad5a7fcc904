-- ===== src/Monitor.antt =====
-- The signal and battery watch of docs/eclipse/src/monitor.c. What the platform answers during a
-- call is an argument of the function; what the device plays or does is part of its result.
pub mod Signal
pub mod Battery
