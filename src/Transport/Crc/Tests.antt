-- ===== src/Transport/Crc/Tests.antt =====
-- The checksum on a short text.
use libaribtlv.Base.{◌≡◌, refl, [], ◌∷◌, ◌++◌, Bytes}
use libaribtlv.Transport.Crc.{crc_bit, crc_bits, crc_byte, crc_from, crc32_mpeg}
use libaribtlv.Transport.Crc.Residue.{checksum_bytes, crc32_mpeg-checked}

abbrev digits : Bytes
digits = 49 ∷ 50 ∷ 51 ∷ 52 ∷ 53 ∷ 54 ∷ 55 ∷ 56 ∷ 57 ∷ []

-- The catalogued check value of CRC-32/MPEG-2.
digits_checksum : crc32_mpeg digits ≡ 0x0376e6e7
unfolding crc32_mpeg crc_from crc_byte crc_bits crc_bit
digits_checksum = refl

crc32_mpeg-checked_example : crc32_mpeg (digits ++ checksum_bytes (crc32_mpeg digits)) ≡ 0
crc32_mpeg-checked_example = crc32_mpeg-checked digits
