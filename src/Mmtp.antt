-- ===== src/Mmtp.antt =====
-- src/mmtp_parser.hpp and the files that define its members: the MMTP parser of one context.
pub mod Packet
pub mod Signalling
pub mod Data
