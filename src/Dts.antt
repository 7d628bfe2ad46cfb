-- ===== src/Dts.antt =====
-- Annex C processing of dts.c.
pub mod Addr
pub mod AddrNibbles
pub mod Send
pub mod Receive
pub mod Frame
pub mod RoundTrip
pub mod Refusal
pub mod Corruption
pub mod Reassembly
pub mod Delivery
pub mod Collect
pub mod EndToEnd
pub mod Again
pub mod Service
