-- ===== src/Card.antt =====
-- EmvCommon.c, Card.c, EmvCallBack.c, func.c: the sale by card, on the EMV kernels of the platform.
pub mod Amount
pub mod Track
pub mod Data
pub mod Kernel
pub mod Contactless
pub mod Contact
pub mod Sale
pub mod Callback
