-- ===== src/Ssrf.antt =====
-- services/ssrf.ts: which hosts the icon proxy may fetch from.
pub mod Text
pub mod Addresses
pub mod Hosts
pub mod Numerals
pub mod Dotted
pub mod Octets
pub mod Forms
pub mod Blocks
pub mod Mapped
pub mod Tests
