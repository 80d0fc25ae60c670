-- ===== src/Wire.antt =====
-- lanid.py: the part of the mDNS wire format that the lobby needs.
pub mod Result
pub mod Name
pub mod Struct
pub mod Utf8
pub mod Txt
pub mod Packet
