-- ===== src/Qris.antt =====
-- The dynamic QRIS payment of docs/eclipse/src/display.c and docs/eclipse/src/mqtt.c: the amount, the
-- QR code on the screen, the messages, the two threads and their shared variables.
pub mod Amount
pub mod Layout
pub mod Message
pub mod Wait
pub mod Protocol
pub mod Thread
