-- ===== src/Examples.antt =====
-- The theorems at concrete inputs, by part of the firmware.
mod Sockets
mod Downloads
mod Payments
mod Firmware
mod Requests
mod Management
mod Updates
mod Menus
mod Cards
mod Messages
