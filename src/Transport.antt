-- ===== src/Transport.antt =====
-- src/tlv_transport_parser.hpp and src/tlv_transport_parser.cpp: the packets that are not
-- compressed IP.
pub mod Crc
pub mod Sections
pub mod Data
pub mod Descriptors
pub mod Nit
pub mod AddressMaps
pub mod Assembly
pub mod Flows
pub mod Session
