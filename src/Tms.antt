-- ===== src/Tms.antt =====
-- tms_tms.c: remote management. The terminal asks the management server for its tasks, downloads the
-- files of a task, checks and installs them.
pub mod Packet
pub mod Trade
pub mod Versions
pub mod Tasks
pub mod Store
pub mod Exchange
pub mod Reply
pub mod Account
pub mod Messages
pub mod Members
pub mod Request
pub mod Download
pub mod Install
pub mod Flow
