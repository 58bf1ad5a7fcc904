-- ===== src/Net.antt =====
-- The pool of network sockets of docs/eclipse/src/network.c, over the modem's and the module's calls.
pub mod Device
pub mod Connect
pub mod Transfer
pub mod Balance
pub mod Pool
pub mod Dial
pub mod Session
pub mod Laws
