-- ===== src/Transport/Crc.antt =====
-- src/tlv_transport_parser.cpp, crc32_mpeg: the checksum of a section.
pub mod Residue
mod Tests
use Prim.Native.Nat.{bit_xor}
use libaribtlv.Base.{ℕ, zero, suc, ◌*◌, ◌/◌, ◌%◌, ◌^◌, List, [], ◌∷◌, ◌==◌, if◌then◌else◌, Bytes}

-- One round of the inner loop, on a std::uint32_t.
unfoldable pub crc_bit : ℕ → ℕ
crc_bit crc =
    if crc / 2 ^ 31 % 2 == 1 then bit_xor (crc * 2 % 2 ^ 32) 0x04c11db7 else crc * 2 % 2 ^ 32

unfoldable pub crc_bits : ℕ → ℕ → ℕ
crc_bits zero crc = crc
crc_bits (suc n) crc = crc_bits n (crc_bit crc)

-- The outer loop's body.
unfoldable pub crc_byte : ℕ → ℕ → ℕ
crc_byte crc b = crc_bits 8 (bit_xor crc (b * 2 ^ 24 % 2 ^ 32))

unfoldable pub crc_from : ℕ → Bytes → ℕ
crc_from crc [] = crc
crc_from crc (b ∷ bs) = crc_from (crc_byte crc b) bs

unfoldable pub crc32_mpeg : Bytes → ℕ
crc32_mpeg bytes = crc_from 0xffffffff bytes
