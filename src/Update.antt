-- ===== src/Update.antt =====
-- The firmware update of docs/eclipse/src/tms.c and the files it leaves by docs/eclipse/src/file.c.
pub mod Countdown
pub mod App
