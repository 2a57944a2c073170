-- ===== src/Protocol.antt =====
-- The dialogue of mac-src/bootpi.c and pi-src/main.c over the serial line: Protocol/Line has the line
-- and the words of boot-defs.h, Protocol/Pi the side of the pi, Protocol/Mac the side of the mac.
pub mod Line
pub mod Pi
pub mod Mac
pub mod Words
pub mod Install
pub mod Ids
pub mod Root
pub mod Names
pub mod Dialogue
pub mod Fleet
pub mod Script
mod Examples
